-- ===== src/Api/Soundness.antt =====
-- The invariant of the database: the tunnels are consistent, and every token belongs to a user.
pub mod Calls
pub mod Expulsion
pub mod Requests
use boringproxy.Prelude.{
  ℕ, ◌≡◌, refl, String, Bool, true, false, not, Option, none, some, List, [], ◌∷◌, ◌==◌, arith,
  eq_iff, is_some, if◌then◌else◌, Bool-cases, Option-cases, inl, inr,
}
use boringproxy.Prelude.GoMap.{GoMap, lookup, lookup-insert, lookup-delete}
use boringproxy.Prelude.Result.{Result, ok, err, panic}
use boringproxy.Http.{Request, Values, get, parse_form}
use boringproxy.Outside.{Outside}
use boringproxy.Utils.{gen_random_code}
use boringproxy.Database.Types.{TokenData, DbClient, User, Tunnel}
use boringproxy.Database.Store.{
  Database, persist, add_token, stored_token, new_user, add_user, delete_user, delete_token_data,
  set_user,
}
use boringproxy.TunnelManager.Manager.{TunnelManager, World, request_create_tunnel, remove_tunnel}
use boringproxy.TunnelManager.Outcome.{
  IsAtomic, added, unchanged, request_create_tunnel-IsAtomic, remove_tunnel_lem,
}
use boringproxy.TunnelManager.Invariant.{
  IsConsistent, request_create_tunnel-IsConsistent, remove_tunnel-IsConsistent,
}
use boringproxy.Api.Tunnels.{
  tunnel_request, requested, api_create_tunnel, may_delete_tunnel, deleted, api_delete_tunnel,
}
use boringproxy.Api.Tokens.{
  token_client, issued, api_create_token, may_delete_token, revoked, api_delete_token,
}
use boringproxy.Api.Users.{
  may_create_user, enrolled, api_create_user, may_delete_user, delete_tokens_of, expelled,
  api_delete_user,
}
use boringproxy.Api.Clients.{
  may_manage, owner_of, client_set, set_if, api_set_client, delete_if, api_delete_client,
}
use boringproxy.Api.Handlers.{serve_http}
use boringproxy.Api.Rule.{Keeps, serve_http-Keeps}

pub record IsSound (d : Database) : Type 0 where
  pub consistent : IsConsistent d.tunnels
  pub owned :
      (k : String) (t : TokenData)
      → lookup k d.tokens ≡ some t
      → is_some (lookup t.owner d.users) ≡ true

-- The tunnels change to a consistent table, and the rest stays.
pub tunnels-IsSound :
    (d e : Database)
    → IsSound d
    → IsConsistent e.tunnels
    → e.tokens ≡ d.tokens
    → e.users ≡ d.users
    → IsSound e
tunnels-IsSound d e s c t u = record {
  consistent = c;
  owned = λ k x h. rw u (s.owned k x (rw (← t) h));
}

pub IsAtomic-IsSound :
    (m : TunnelManager) (req : Tunnel) (w w' : World) (r : Result Tunnel)
    → IsSound w.db
    → IsConsistent w'.db.tunnels
    → IsAtomic m req w w' r
    → IsSound w'.db
IsAtomic-IsSound m req w w' _ s c (added t _ _ _ _ _ _ toks users) =
    tunnels-IsSound w.db w'.db s c toks users
IsAtomic-IsSound m req w w' _ s c (unchanged r _ same) = rw same s

-- Storing a user takes no owner away.
pub set_user-IsSound :
    (name : String) (user : User) (d : Database) → IsSound d → IsSound (set_user name user d)
unfolding set_user persist
set_user-IsSound name user d s = record {
  consistent = s.consistent;
  owned = λ k t h. ground (arith, lookup-insert name t.owner user d.users, s.owned k t h);
}

pub delete_token_data-IsSound :
    (token : String) (d : Database) → IsSound d → IsSound (delete_token_data token d)
unfolding delete_token_data persist
delete_token_data-IsSound token d s = record {
  consistent = s.consistent;
  owned = λ k t h. ground (arith, lookup-delete token k d.tokens, s.owned k t);
}

stored_token-IsSound :
    (owner client : String) (d : Database) (r : Result String)
    → IsSound d
    → is_some (lookup owner d.users) ≡ true
    → IsSound (stored_token owner client d r).0
unfolding persist
stored_token-IsSound owner client d (ok token) s e = record {
  consistent = s.consistent;
  owned = λ k t h. ground (
    arith,
    lookup-insert token k (record { owner = owner; client = client }) d.tokens,
    s.owned k t,
  );
}
stored_token-IsSound owner client d (err e) s _ = s
stored_token-IsSound owner client d panic s _ = s

pub add_token-IsSound :
    (rand : ℕ → ℕ → Result ℕ) (owner client : String) (d : Database)
    → IsSound d
    → IsSound (add_token rand owner client d).0
unfolding add_token
add_token-IsSound rand owner client d s = elim (Bool-cases (is_some (lookup owner d.users))) [
  | inl e ↦ rw e (stored_token-IsSound owner client d (gen_random_code rand 32) s e)
  | inr e ↦ rw e s
]

pub add_user-IsSound :
    (name : String) (admin : Bool) (d : Database) → IsSound d → IsSound (add_user name admin d).0
unfolding add_user
add_user-IsSound name admin d s = elim (Bool-cases (is_some (lookup name d.users))) [
  | inl e ↦ rw e s
  | inr e ↦ rw e (unfold set_user in set_user-IsSound name (new_user admin) d s)
]
