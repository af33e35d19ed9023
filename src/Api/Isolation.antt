-- ===== src/Api/Isolation.antt =====
-- What a request may change for a caller that is no admin.
pub mod Tunnels
pub mod Tokens
pub mod Clients
pub mod Requests
use boringproxy.Prelude.{
  ℕ, ◌≡◌, refl, sym, ◌∙◌, ◌≢◌, ◌↔◌, String, Bool, true, false, not, Option, none, some, ◌==◌, ◌!=◌,
  ◌&&◌, ◌||◌, arith, eq_iff, eq_refl, if◌then◌else◌, Bool-cases, Option-cases, inl, inr, or_zero,
  is_some, List, [], ◌∷◌,
}
use boringproxy.Prelude.GoMap.{GoMap, lookup, insert, lookup-insert, lookup-delete}
use boringproxy.Prelude.Result.{Result, ok, err, panic, fail_if, with_message, ◌>>=◌, ◌>>◌}
use boringproxy.Http.{Values, get}
use boringproxy.Outside.{Outside}
use boringproxy.Utils.{gen_random_code}
use boringproxy.Database.Types.{TokenData, DbClient, Tunnel, User, zero_user}
use boringproxy.Database.Store.{
  Database, persist, set_tunnel, add_token, stored_token, add_user, delete_token_data,
  delete_tunnel, set_user,
}
use boringproxy.TunnelManager.Manager.{
  TunnelManager, World, Config, request_create_tunnel, remove_tunnel,
}
use boringproxy.TunnelManager.Outcome.{
  IsAtomic, added, unchanged, request_create_tunnel-IsAtomic, remove_tunnel_lem,
}
use boringproxy.TunnelManager.Invariant.{IsConsistent, request_create_tunnel-taken}
use boringproxy.Api.Tunnels.{
  caller, tunnel_request, requested, api_create_tunnel, may_delete_tunnel, api_delete_tunnel,
}
use boringproxy.Api.Tokens.{
  token_client, api_create_token, may_delete_token, api_delete_token, revoked, issued,
}
use boringproxy.Api.Users.{may_create_user, api_create_user, may_delete_user, api_delete_user}
use boringproxy.Api.Clients.{
  may_manage, owner_of, client_set, set_if, delete_if, api_set_client, api_delete_client,
}

-- From `d` to `e` nothing has changed but what belongs to the user `me`, who is no more an admin than
-- before.
pub record Isolated (me : String) (d e : Database) : Type 0 where
  pub admin_domain : e.admin_domain ≡ d.admin_domain
  pub tunnels_kept :
      (k : String) (t : Tunnel)
      → lookup k d.tunnels ≡ some t
      → t.owner ≢ me
      → lookup k e.tunnels ≡ some t
  pub tunnels_new :
      (k : String) (t : Tunnel)
      → lookup k e.tunnels ≡ some t
      → t.owner ≢ me
      → lookup k d.tunnels ≡ some t
  pub tokens_kept :
      (k : String) (t : TokenData)
      → lookup k d.tokens ≡ some t
      → t.owner ≢ me
      → lookup k e.tokens ≡ some t
  pub tokens_new :
      (k : String) (t : TokenData)
      → lookup k e.tokens ≡ some t
      → t.owner ≢ me
      → lookup k d.tokens ≡ some t
  pub users : (k : String) → k ≢ me → lookup k e.users ≡ lookup k d.users
  pub rank :
      (or_zero zero_user (lookup me e.users)).is_admin
      ≡ (or_zero zero_user (lookup me d.users)).is_admin

-- The code that the random source yields for a new token is not in use.
abbrev pub IsFresh : (ℕ → ℕ → Result ℕ) → Database → Type 0
IsFresh rand d =
    (token : String) → gen_random_code rand 32 ≡ ok token → lookup token d.tokens ≡ none

pub Isolated-refl : (me : String) (d : Database) → Isolated me d d
Isolated-refl me d = record {
  admin_domain = refl;
  tunnels_kept = λ k t e n. e;
  tunnels_new = λ k t e n. e;
  tokens_kept = λ k t e n. e;
  tokens_new = λ k t e n. e;
  users = λ k n. refl;
  rank = refl;
}

-- A change of the tunnels alone.
pub tunnels-Isolated :
    (me : String) (d e : Database)
    → e.admin_domain ≡ d.admin_domain
    → e.tokens ≡ d.tokens
    → e.users ≡ d.users
    → ((k : String) (t : Tunnel)
        → t.owner ≢ me
        → (lookup k d.tunnels ≡ some t) ↔ (lookup k e.tunnels ≡ some t))
    → Isolated me d e
tunnels-Isolated me d e a t u h = record {
  admin_domain = a;
  tunnels_kept = λ k s p n. (h k s n).0 p;
  tunnels_new = λ k s p n. (h k s n).1 p;
  tokens_kept = λ k s p n. rw t p;
  tokens_new = λ k s p n. rw (← t) p;
  users = λ k n. rw u;
  rank = rw u;
}

-- A change of the tokens alone.
pub tokens-Isolated :
    (me : String) (d e : Database)
    → e.admin_domain ≡ d.admin_domain
    → e.tunnels ≡ d.tunnels
    → e.users ≡ d.users
    → ((k : String) (t : TokenData)
        → t.owner ≢ me
        → (lookup k d.tokens ≡ some t) ↔ (lookup k e.tokens ≡ some t))
    → Isolated me d e
tokens-Isolated me d e a t u h = record {
  admin_domain = a;
  tunnels_kept = λ k s p n. rw t p;
  tunnels_new = λ k s p n. rw (← t) p;
  tokens_kept = λ k s p n. (h k s n).0 p;
  tokens_new = λ k s p n. (h k s n).1 p;
  users = λ k n. rw u;
  rank = rw u;
}

-- A change of the user `me` alone that leaves its rank.
pub user-Isolated :
    (me : String) (d e : Database)
    → e.admin_domain ≡ d.admin_domain
    → e.tunnels ≡ d.tunnels
    → e.tokens ≡ d.tokens
    → ((k : String) → k ≢ me → lookup k e.users ≡ lookup k d.users)
    → (or_zero zero_user (lookup me e.users)).is_admin
      ≡ (or_zero zero_user (lookup me d.users)).is_admin
    → Isolated me d e
user-Isolated me d e a t s u r = record {
  admin_domain = a;
  tunnels_kept = λ k x p n. rw t p;
  tunnels_new = λ k x p n. rw (← t) p;
  tokens_kept = λ k x p n. rw s p;
  tokens_new = λ k x p n. rw (← s) p;
  users = u;
  rank = r;
}
