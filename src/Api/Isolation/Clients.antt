-- ===== src/Api/Isolation/Clients.antt =====
-- SetClient and DeleteClient leave other users alone.
use boringproxy.Prelude.{◌≡◌, refl, String, false, Option, none, some, arith, eq_iff, eq_refl}
use boringproxy.Prelude.GoMap.{GoMap, lookup-insert}
use boringproxy.Prelude.Result.{Result, ok, err, panic}
use boringproxy.Database.Types.{TokenData, DbClient, User}
use boringproxy.Database.Store.{Database, persist, set_user}
use boringproxy.Api.Tunnels.{caller}
use boringproxy.Api.Clients.{
  may_manage, owner_of, client_set, set_if, delete_if, api_set_client, api_delete_client,
}
use boringproxy.Api.Isolation.{Isolated, Isolated-refl, user-Isolated}

module _ (token_data : TokenData) (owner_id client_id : String) (d : Database) where
  may_manage-owner :
      (u : Unit {0})
      → (caller token_data d).is_admin ≡ false
      → may_manage token_data owner_id d ≡ ok u
      → owner_id ≡ token_data.owner
  unfolding may_manage
  may_manage-owner u low h = ground (arith, eq_iff token_data.owner owner_id)

  -- Storing a user with the rank that the name had.
  set_user-Isolated :
      (user : User)
      → owner_id ≡ token_data.owner
      → user.is_admin ≡ (owner_of owner_id d).is_admin
      → Isolated token_data.owner d (set_user owner_id user d)
  unfolding set_user persist
  set_user-Isolated user own rank =
      user-Isolated token_data.owner d (set_user owner_id user d) refl refl refl
        (λ k n. ground (arith, lookup-insert owner_id k user d.users, eq_iff owner_id k))
        (rw (← own, lookup-insert owner_id owner_id user d.users, eq_refl owner_id) rank)

  pub api_set_client-Isolated :
      (caller token_data d).is_admin ≡ false
      → Isolated token_data.owner d (api_set_client token_data owner_id client_id d).0
  unfolding api_set_client
  api_set_client-Isolated low = go (may_manage token_data owner_id d) refl
    where
      stored :
          (clients : Option (GoMap DbClient))
          → owner_id ≡ token_data.owner
          → Isolated token_data.owner d
              (client_set owner_id client_id d (owner_of owner_id d) clients).0
      stored none own = Isolated-refl token_data.owner d
      stored (some clients) own = set_user-Isolated _ own refl

      go :
          (r : Result (Unit {0}))
          → may_manage token_data owner_id d ≡ r
          → Isolated token_data.owner d (set_if owner_id client_id d r).0
      go (ok u) h = stored (owner_of owner_id d).clients (may_manage-owner u low h)
      go (err e) h = Isolated-refl token_data.owner d
      go panic h = Isolated-refl token_data.owner d

  pub api_delete_client-Isolated :
      (caller token_data d).is_admin ≡ false
      → Isolated token_data.owner d (api_delete_client token_data owner_id client_id d).0
  unfolding api_delete_client
  api_delete_client-Isolated low = go (may_manage token_data owner_id d) refl
    where
      go :
          (r : Result (Unit {0}))
          → may_manage token_data owner_id d ≡ r
          → Isolated token_data.owner d (delete_if owner_id client_id d r).0
      go (ok u) h = set_user-Isolated _ (may_manage-owner u low h) refl
      go (err e) h = Isolated-refl token_data.owner d
      go panic h = Isolated-refl token_data.owner d
