-- ===== src/Api/Soundness/Calls.antt =====
-- The API calls but DeleteUser keep the invariant.
use boringproxy.Prelude.{ℕ, String, Option, none, some, ◌==◌}
use boringproxy.Prelude.GoMap.{GoMap}
use boringproxy.Prelude.Result.{Result, ok, err, panic}
use boringproxy.Http.{Values, get}
use boringproxy.Outside.{Outside}
use boringproxy.Database.Types.{TokenData, DbClient, User, Tunnel}
use boringproxy.Database.Store.{Database}
use boringproxy.TunnelManager.Manager.{TunnelManager, World, request_create_tunnel, remove_tunnel}
use boringproxy.TunnelManager.Outcome.{request_create_tunnel-IsAtomic, remove_tunnel_lem}
use boringproxy.TunnelManager.Invariant.{
  request_create_tunnel-IsConsistent, remove_tunnel-IsConsistent,
}
use boringproxy.Api.Tunnels.{
  tunnel_request, requested, api_create_tunnel, may_delete_tunnel, deleted, api_delete_tunnel,
}
use boringproxy.Api.Tokens.{
  token_client, issued, api_create_token, may_delete_token, revoked, api_delete_token,
}
use boringproxy.Api.Users.{may_create_user, enrolled, api_create_user}
use boringproxy.Api.Clients.{
  may_manage, owner_of, client_set, set_if, api_set_client, delete_if, api_delete_client,
}
use boringproxy.Api.Soundness.{
  IsSound, tunnels-IsSound, IsAtomic-IsSound, set_user-IsSound, delete_token_data-IsSound,
  add_token-IsSound, add_user-IsSound,
}

module _ (m : TunnelManager) (o : Outside) (t : TokenData) (params : Values) (w : World)
    (s : IsSound w.db) where
  requested-IsSound : (r : Result Tunnel) → IsSound (requested m o w r).0.db
  requested-IsSound (ok req) =
      IsAtomic-IsSound m req w (request_create_tunnel m o req w).0 _ s
        (request_create_tunnel-IsConsistent m o req w s.consistent)
        (request_create_tunnel-IsAtomic m o req w)
  requested-IsSound (err e) = s
  requested-IsSound panic = s

  pub api_create_tunnel-IsSound : IsSound (api_create_tunnel m o t params w).0.db
  unfolding api_create_tunnel
  api_create_tunnel-IsSound = requested-IsSound (tunnel_request m.config t params w.db)

  deleted-IsSound : (r : Result (Unit {0})) → IsSound (deleted m o (get "domain" params) w r).0.db
  deleted-IsSound (ok u) =
      let facts = remove_tunnel_lem m o (get "domain" params) "" w in
      tunnels-IsSound w.db (remove_tunnel m o (get "domain" params) w).0.db s
        (remove_tunnel-IsConsistent m o (get "domain" params) w s.consistent) facts.2 facts.3
  deleted-IsSound (err e) = s
  deleted-IsSound panic = s

  pub api_delete_tunnel-IsSound : IsSound (api_delete_tunnel m o t params w).0.db
  unfolding api_delete_tunnel
  api_delete_tunnel-IsSound = deleted-IsSound (may_delete_tunnel t params w.db)

module _ (t : TokenData) (params : Values) (d : Database) (s : IsSound d) where
  issued-IsSound :
      (rand : ℕ → ℕ → Result ℕ) (r : Result String)
      → IsSound (issued rand (get "owner" params) d r).0
  issued-IsSound rand (ok client) = add_token-IsSound rand (get "owner" params) client d s
  issued-IsSound rand (err e) = s
  issued-IsSound rand panic = s

  pub api_create_token-IsSound :
      (rand : ℕ → ℕ → Result ℕ) → IsSound (api_create_token rand t params d).0
  unfolding api_create_token
  api_create_token-IsSound rand = issued-IsSound rand (token_client t params d)

  revoked-IsSound : (r : Result (Unit {0})) → IsSound (revoked (get "token" params) d r).0
  revoked-IsSound (ok u) = delete_token_data-IsSound (get "token" params) d s
  revoked-IsSound (err e) = s
  revoked-IsSound panic = s

  pub api_delete_token-IsSound : IsSound (api_delete_token t params d).0
  unfolding api_delete_token
  api_delete_token-IsSound = revoked-IsSound (may_delete_token t params d)

  enrolled-IsSound : (r : Result (Unit {0})) → IsSound (enrolled params d r).0
  enrolled-IsSound (ok u) =
      add_user-IsSound (get "username" params) (get "is-admin" params == "on") d s
  enrolled-IsSound (err e) = s
  enrolled-IsSound panic = s

  pub api_create_user-IsSound : IsSound (api_create_user t params d).0
  unfolding api_create_user
  api_create_user-IsSound = enrolled-IsSound (may_create_user t params d)

module _ (t : TokenData) (owner_id client_id : String) (d : Database) (s : IsSound d) where
  client_set-IsSound :
      (owner : User) (clients : Option (GoMap DbClient))
      → IsSound (client_set owner_id client_id d owner clients).0
  client_set-IsSound owner none = s
  client_set-IsSound owner (some clients) = set_user-IsSound owner_id _ d s

  set_if-IsSound : (r : Result (Unit {0})) → IsSound (set_if owner_id client_id d r).0
  set_if-IsSound (ok u) = client_set-IsSound (owner_of owner_id d) (owner_of owner_id d).clients
  set_if-IsSound (err e) = s
  set_if-IsSound panic = s

  pub api_set_client-IsSound : IsSound (api_set_client t owner_id client_id d).0
  unfolding api_set_client
  api_set_client-IsSound = set_if-IsSound (may_manage t owner_id d)

  delete_if-IsSound : (r : Result (Unit {0})) → IsSound (delete_if owner_id client_id d r).0
  delete_if-IsSound (ok u) = set_user-IsSound owner_id _ d s
  delete_if-IsSound (err e) = s
  delete_if-IsSound panic = s

  pub api_delete_client-IsSound : IsSound (api_delete_client t owner_id client_id d).0
  unfolding api_delete_client
  api_delete_client-IsSound = delete_if-IsSound (may_manage t owner_id d)
