-- ===== src/Api/Clients.antt =====
-- SetClient and DeleteClient of api.go. A user's client map is shared by the copies that the database
-- hands out; since both operations store the copy at once, a copy that is a value comes to the same.
use boringproxy.Prelude.{String, not, Option, none, some, ◌!=◌, ◌&&◌, or_zero}
use boringproxy.Prelude.GoMap.{GoMap, insert, delete}
use boringproxy.Prelude.Result.{Result, ok, err, panic, fail_if}
use boringproxy.Database.Types.{TokenData, DbClient, User, zero_user}
use boringproxy.Database.Store.{Database, get_user, set_user}
use boringproxy.Api.Tunnels.{caller}

unfoldable pub may_manage : TokenData → String → Database → Result (Unit {0})
may_manage token_data owner_id d =
    fail_if (token_data.owner != owner_id && not (caller token_data d).is_admin) "Unauthorized"

abbrev pub owner_of : String → Database → User
owner_of owner_id d = or_zero zero_user (get_user owner_id d)

-- `owner.Clients[clientId] = DbClient{}` panics on a nil map.
abbrev pub client_set :
    String → String → Database → User → Option (GoMap DbClient) → Database × Result (Unit {0})
client_set owner_id client_id d owner none = (d, panic)
client_set owner_id client_id d owner (some clients) = (
  set_user owner_id (record owner { clients = some (insert client_id (record {}) clients) }) d,
  ok tt,
)

abbrev pub set_if : String → String → Database → Result (Unit {0}) → Database × Result (Unit {0})
set_if owner_id client_id d (ok _) =
    client_set owner_id client_id d (owner_of owner_id d) (owner_of owner_id d).clients
set_if owner_id client_id d (err e) = (d, err e)
set_if owner_id client_id d panic = (d, panic)

-- SetClient
unfoldable pub api_set_client :
    TokenData → String → String → Database → Database × Result (Unit {0})
api_set_client token_data owner_id client_id d =
    set_if owner_id client_id d (may_manage token_data owner_id d)

-- `delete` on a nil map does nothing.
abbrev pub without_client : String → Option (GoMap DbClient) → Option (GoMap DbClient)
without_client client_id none = none
without_client client_id (some clients) = some (delete client_id clients)

abbrev pub delete_if : String → String → Database → Result (Unit {0}) → Database × Result (Unit {0})
delete_if owner_id client_id d (ok _) =
    let owner = owner_of owner_id d in
    (set_user owner_id (record owner { clients = without_client client_id owner.clients }) d, ok tt)
delete_if owner_id client_id d (err e) = (d, err e)
delete_if owner_id client_id d panic = (d, panic)

-- DeleteClient
unfoldable pub api_delete_client :
    TokenData → String → String → Database → Database × Result (Unit {0})
api_delete_client token_data owner_id client_id d =
    delete_if owner_id client_id d (may_manage token_data owner_id d)
