-- ===== src/Api/Limited.antt =====
-- What a token that is limited to a client can change.
use boringproxy.Prelude.{
  ◌≡◌, refl, sym, ◌∙◌, ap, eq_of_test, Bool-cases, ◌≢◌, ◌⊎◌, inl, inr, String, Option, none, some,
  arith, eq_iff, or_zero, ◌==◌, is_some, true,
}
use boringproxy.Prelude.GoMap.{GoMap, lookup, insert, lookup-insert, lookup-delete}
use boringproxy.Prelude.Result.{Result, ok, err, panic}
use boringproxy.Http.{Request}
use boringproxy.Outside.{Outside}
use boringproxy.Database.Types.{TokenData, DbClient, User, zero_user}
use boringproxy.Database.Store.{Database, set_user, persist}
use boringproxy.TunnelManager.Manager.{TunnelManager, World}
use boringproxy.Api.Clients.{
  may_manage, owner_of, client_set, set_if, delete_if, without_client, api_set_client,
  api_delete_client,
}
use boringproxy.Api.Tokens.{has_client}
use boringproxy.Api.Handlers.{serve_http}
use boringproxy.Api.Rule.{IsCaller, IsCaller-unique, serve_http-Keeps}

-- Between two states only the entry of one client in users' client lists may differ, and a user may be
-- new that has no rank and no client map.
pub record OnlyClient (client : String) (d e : Database) : Type 0 where
  pub admin_domain : e.admin_domain ≡ d.admin_domain
  pub tunnels : e.tunnels ≡ d.tunnels
  pub tokens : e.tokens ≡ d.tokens
  pub ranks :
      (name : String)
      → (or_zero zero_user (lookup name e.users)).is_admin
        ≡ (or_zero zero_user (lookup name d.users)).is_admin
  pub others :
      (name other : String)
      → other ≢ client
      → has_client other (or_zero zero_user (lookup name e.users))
        ≡ has_client other (or_zero zero_user (lookup name d.users))
  pub kept :
      (name : String) → is_some (lookup name d.users) ≡ true → is_some (lookup name e.users) ≡ true
  pub born :
      (name : String)
      → lookup name d.users ≡ none
      → (lookup name e.users ≡ none) ⊎ (lookup name e.users ≡ some zero_user)

OnlyClient-refl : (client : String) (d : Database) → OnlyClient client d d
OnlyClient-refl client d = record {
  admin_domain = refl;
  tunnels = refl;
  tokens = refl;
  ranks = λ name. refl;
  others = λ name other n. refl;
  kept = λ name h. h;
  born = λ name h. inl h;
}

module _ (t : TokenData) (owner_id client : String) (d : Database) where
  set_user-OnlyClient :
      (user : User)
      → user.is_admin ≡ (owner_of owner_id d).is_admin
      → ((other : String)
          → other ≢ client
          → has_client other user ≡ has_client other (owner_of owner_id d))
      → (lookup owner_id d.users ≡ none → user ≡ zero_user)
      → OnlyClient client d (set_user owner_id user d)
  unfolding set_user persist
  set_user-OnlyClient user rank same zero = record {
    admin_domain = refl;
    tunnels = refl;
    tokens = refl;
    ranks = λ name. ground (arith, lookup-insert owner_id name user d.users, eq_iff owner_id name);
    others = λ name other n. elim (Bool-cases (owner_id == name)) [
      | inl e ↦
          rw (lookup-insert owner_id name user d.users, e)
            (same other n
              ∙ ap (λ k. has_client other (or_zero zero_user (lookup k d.users)))
                  (eq_of_test owner_id name e))
      | inr e ↦ rw (lookup-insert owner_id name user d.users, e)
    ];
    kept = λ name h. ground (arith, lookup-insert owner_id name user d.users);
    born = λ name h. elim (Bool-cases (owner_id == name)) [
      | inl e ↦
          rw (lookup-insert owner_id name user d.users, e)
            (inr (ap some (zero (rw (eq_of_test owner_id name e) h))))
      | inr e ↦ rw (lookup-insert owner_id name user d.users, e) (inl h)
    ];
  }

  has_client-set :
      (clients : GoMap DbClient) (owner : User) (other : String)
      → owner.clients ≡ some clients
      → other ≢ client
      → has_client other (record owner { clients = some (insert client (record {}) clients) })
        ≡ has_client other owner
  has_client-set clients owner other e n =
      rw e (ground (arith, lookup-insert client other (record {}) clients, eq_iff client other))

  has_client-delete :
      (owner : User) (clients : Option (GoMap DbClient)) (other : String)
      → owner.clients ≡ clients
      → other ≢ client
      → has_client other (record owner { clients = without_client client clients })
        ≡ has_client other owner
  has_client-delete owner none other e n = rw e
  has_client-delete owner (some clients) other e n =
      rw e (ground (arith, lookup-delete client other clients, eq_iff client other))

  client_set-OnlyClient :
      (clients : Option (GoMap DbClient))
      → (owner_of owner_id d).clients ≡ clients
      → OnlyClient client d (client_set owner_id client d (owner_of owner_id d) clients).0
  client_set-OnlyClient none e = OnlyClient-refl client d
  client_set-OnlyClient (some clients) e =
      set_user-OnlyClient _ refl (λ other n. has_client-set clients (owner_of owner_id d) other e n)
        (λ h. let missing : none ≡ some clients = rw h at e in absurd (cc missing))

  api_set_client-OnlyClient : OnlyClient client d (api_set_client t owner_id client d).0
  unfolding api_set_client
  api_set_client-OnlyClient = go (may_manage t owner_id d)
    where
      go : (r : Result (Unit {0})) → OnlyClient client d (set_if owner_id client d r).0
      go (ok u) = client_set-OnlyClient (owner_of owner_id d).clients refl
      go (err e) = OnlyClient-refl client d
      go panic = OnlyClient-refl client d

  api_delete_client-OnlyClient : OnlyClient client d (api_delete_client t owner_id client d).0
  unfolding api_delete_client
  api_delete_client-OnlyClient = go (may_manage t owner_id d)
    where
      go : (r : Result (Unit {0})) → OnlyClient client d (delete_if owner_id client d r).0
      go (ok u) =
          set_user-OnlyClient _ refl
            (λ other n. has_client-delete (owner_of owner_id d) _ other refl n) (λ h. rw h refl)
      go (err e) = OnlyClient-refl client d
      go panic = OnlyClient-refl client d

same_client : (client name : String) → client ≢ "" → (client ≡ "") ⊎ (client ≡ name) → name ≡ client
same_client client name n (inl e) = absurd (n e)
same_client client name n (inr e) = sym e

-- A request with a token that is limited to a client, also an admin's, changes at most that client's
-- entry in the client lists: the tunnels, the tokens, the admin domain, the users with their ranks and
-- every other client of every user stay; and a user that did not exist before has no rank and no
-- client map, if it exists after.
pub serve_http-OnlyClient :
    (m : TunnelManager) (o : Outside) (r : Request) (w : World) (token_data : TokenData)
    → IsCaller r w token_data
    → token_data.client ≢ ""
    → OnlyClient token_data.client w.db (serve_http m o r w).0.db
serve_http-OnlyClient m o r w token_data me limited = serve_http-Keeps P m o r w (record {
  start = OnlyClient-refl token_data.client w.db;
  create_tunnel = λ t c e. absurd (limited (free t c e));
  delete_tunnel = λ t c e. absurd (limited (free t c e));
  create_user = λ t c e. absurd (limited (free t c e));
  create_token = λ t c e. absurd (limited (free t c e));
  set_client = λ t user client c own.
      rw (← own_client t client c own) (api_set_client-OnlyClient t user client w.db);
  delete_client = λ t user client c own.
      rw (← own_client t client c own) (api_delete_client-OnlyClient t user client w.db);
})
  where
    P : World → Type 0
    P w' = OnlyClient token_data.client w.db w'.db

    free : (t : TokenData) → IsCaller r w t → t.client ≡ "" → token_data.client ≡ ""
    free t c e = ap (λ (x : TokenData). x.client) (IsCaller-unique r w token_data t me c) ∙ e

    own_client :
        (t : TokenData) (client : String)
        → IsCaller r w t
        → (t.client ≡ "") ⊎ (t.client ≡ client)
        → client ≡ token_data.client
    own_client t client c own =
        same_client token_data.client client limited
          (rw (IsCaller-unique r w t token_data c me) at own)
