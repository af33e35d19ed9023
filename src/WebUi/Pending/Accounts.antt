-- ===== src/WebUi/Pending/Accounts.antt =====
-- The calls about users, tokens and clients leave the tunnels alone.
use boringproxy.Prelude.{
  ◌≡◌, refl, String, Bool, Option, none, some, is_some, Bool-cases, inl, inr, ℕ, ◌==◌,
}
use boringproxy.Prelude.GoMap.{GoMap, lookup}
use boringproxy.Prelude.Result.{Result, ok, err, panic}
use boringproxy.Http.{Values, get}
use boringproxy.Utils.{gen_random_code}
use boringproxy.Database.Types.{TokenData, DbClient, User}
use boringproxy.Database.Store.{
  Database, persist, stored_token, add_token, delete_token_data, add_user, set_user, delete_user,
}
use boringproxy.Api.Tokens.{
  token_client, issued, api_create_token, may_delete_token, revoked, api_delete_token,
}
use boringproxy.Api.Users.{
  may_create_user, enrolled, api_create_user, may_delete_user, expelled, api_delete_user,
}
use boringproxy.Api.Clients.{
  may_manage, owner_of, client_set, set_if, api_set_client, delete_if, api_delete_client,
}
use boringproxy.Api.Soundness.Expulsion.{delete_tokens_of-rest}

module _ (d : Database) where
  stored_token-tunnels :
      (owner client : String) (r : Result String)
      → (stored_token owner client d r).0.tunnels ≡ d.tunnels
  unfolding persist
  stored_token-tunnels owner client (ok token) = refl
  stored_token-tunnels owner client (err e) = refl
  stored_token-tunnels owner client panic = refl

  add_token-tunnels :
      (rand : ℕ → ℕ → Result ℕ) (owner client : String)
      → (add_token rand owner client d).0.tunnels ≡ d.tunnels
  unfolding add_token
  add_token-tunnels rand owner client = elim (Bool-cases (is_some (lookup owner d.users))) [
    | inl e ↦ rw e (stored_token-tunnels owner client (gen_random_code rand 32))
    | inr e ↦ rw e refl
  ]

  issued-tunnels :
      (rand : ℕ → ℕ → Result ℕ) (owner : String) (r : Result String)
      → (issued rand owner d r).0.tunnels ≡ d.tunnels
  issued-tunnels rand owner (ok client) = add_token-tunnels rand owner client
  issued-tunnels rand owner (err e) = refl
  issued-tunnels rand owner panic = refl

  revoked-tunnels :
      (token : String) (r : Result (Unit {0})) → (revoked token d r).0.tunnels ≡ d.tunnels
  unfolding delete_token_data persist
  revoked-tunnels token (ok u) = refl
  revoked-tunnels token (err e) = refl
  revoked-tunnels token panic = refl

  add_user-tunnels : (name : String) (admin : Bool) → (add_user name admin d).0.tunnels ≡ d.tunnels
  unfolding add_user persist
  add_user-tunnels name admin = elim (Bool-cases (is_some (lookup name d.users))) [
    | inl e ↦ rw e refl
    | inr e ↦ rw e refl
  ]

  enrolled-tunnels :
      (params : Values) (r : Result (Unit {0})) → (enrolled params d r).0.tunnels ≡ d.tunnels
  enrolled-tunnels params (ok u) =
      add_user-tunnels (get "username" params) (get "is-admin" params == "on")
  enrolled-tunnels params (err e) = refl
  enrolled-tunnels params panic = refl

  expelled-tunnels :
      (name : String) (r : Result (Unit {0})) → (expelled name d r).0.tunnels ≡ d.tunnels
  unfolding delete_user persist
  expelled-tunnels name (ok u) = (delete_tokens_of-rest name d.tokens (delete_user name d)).1
  expelled-tunnels name (err e) = refl
  expelled-tunnels name panic = refl

  client_set-tunnels :
      (owner_id client_id : String) (owner : User) (clients : Option (GoMap DbClient))
      → (client_set owner_id client_id d owner clients).0.tunnels ≡ d.tunnels
  unfolding set_user persist
  client_set-tunnels owner_id client_id owner none = refl
  client_set-tunnels owner_id client_id owner (some clients) = refl

  set_if-tunnels :
      (owner_id client_id : String) (r : Result (Unit {0}))
      → (set_if owner_id client_id d r).0.tunnels ≡ d.tunnels
  set_if-tunnels owner_id client_id (ok u) =
      client_set-tunnels owner_id client_id (owner_of owner_id d) (owner_of owner_id d).clients
  set_if-tunnels owner_id client_id (err e) = refl
  set_if-tunnels owner_id client_id panic = refl

  delete_if-tunnels :
      (owner_id client_id : String) (r : Result (Unit {0}))
      → (delete_if owner_id client_id d r).0.tunnels ≡ d.tunnels
  unfolding set_user persist
  delete_if-tunnels owner_id client_id (ok u) = refl
  delete_if-tunnels owner_id client_id (err e) = refl
  delete_if-tunnels owner_id client_id panic = refl

  module _ (t : TokenData) (params : Values) where
    pub api_create_token-tunnels :
        (rand : ℕ → ℕ → Result ℕ) → (api_create_token rand t params d).0.tunnels ≡ d.tunnels
    unfolding api_create_token
    api_create_token-tunnels rand = issued-tunnels rand _ (token_client t params d)

    pub api_delete_token-tunnels : (api_delete_token t params d).0.tunnels ≡ d.tunnels
    unfolding api_delete_token
    api_delete_token-tunnels = revoked-tunnels _ (may_delete_token t params d)

    pub api_create_user-tunnels : (api_create_user t params d).0.tunnels ≡ d.tunnels
    unfolding api_create_user
    api_create_user-tunnels = enrolled-tunnels params (may_create_user t params d)

    pub api_delete_user-tunnels : (api_delete_user t params d).0.tunnels ≡ d.tunnels
    unfolding api_delete_user
    api_delete_user-tunnels = expelled-tunnels _ (may_delete_user t params d)

  module _ (t : TokenData) (owner_id client_id : String) where
    pub api_set_client-tunnels : (api_set_client t owner_id client_id d).0.tunnels ≡ d.tunnels
    unfolding api_set_client
    api_set_client-tunnels = set_if-tunnels owner_id client_id (may_manage t owner_id d)

    pub api_delete_client-tunnels : (api_delete_client t owner_id client_id d).0.tunnels ≡ d.tunnels
    unfolding api_delete_client
    api_delete_client-tunnels = delete_if-tunnels owner_id client_id (may_manage t owner_id d)
