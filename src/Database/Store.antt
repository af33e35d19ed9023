-- ===== src/Database/Store.antt =====
-- The `Database` object and its methods. Each method holds the mutex from its first line to its last,
-- so it is one step; a method that changes the object ends in `persist`.
use boringproxy.Prelude.{ℕ, String, Bool, Option, some, [], if◌then◌else◌, is_some}
use boringproxy.Prelude.GoMap.{GoMap, lookup, insert, delete}
use boringproxy.Prelude.Json.{Json, object, Members, member, end, str, encode_map}
use boringproxy.Prelude.Result.{Result, ok, err, panic}
use boringproxy.Utils.{gen_random_code}
use boringproxy.Database.Types.{TokenData, User, Tunnel}
use boringproxy.Database.Codec.{encode_token_data, encode_user, encode_tunnel}

-- The content of boringproxy_db.json.
pub data DbFile : Type 0 where
  missing malformed : DbFile
  document : Json → DbFile

-- `write` is what ioutil.WriteFile does to the file: whether it worked, and what the file holds then.
pub record Disk : Type 0 where
  pub file : DbFile
  pub write : Json → DbFile → Bool × DbFile

pub record Database : Type 0 where
  pub admin_domain : String
  pub tokens : GoMap TokenData
  pub tunnels : GoMap Tunnel
  pub users : GoMap User
  pub disk : Disk

unfoldable pub marshal_members : Database → Members
unfolding encode_map encode_token_data encode_tunnel encode_user
marshal_members d = member "admin_domain" (str d.admin_domain) (
    member "tokens" (object (encode_map encode_token_data d.tokens)) (
      member "tunnels" (object (encode_map encode_tunnel d.tunnels))
        (member "users" (object (encode_map encode_user d.users)) end)))

-- json.MarshalIndent of the database, which has no value that it refuses
unfoldable pub marshal : Database → Json
unfolding marshal_members
marshal d = object (marshal_members d)

-- saveJson
unfoldable pub save_json : Json → Disk → Disk × Result (Unit {0})
save_json doc disk =
    let (done, file) = disk.write doc disk.file in
    (record disk { file = file }, if done then ok tt else err "Error saving JSON")

-- persist, which drops the error
unfoldable pub persist : Database → Database
unfolding save_json marshal
persist d = record d { disk = (save_json (marshal d) d.disk).0 }

unfoldable pub set_admin_domain : String → Database → Database
set_admin_domain domain d = persist (record d { admin_domain = domain })

abbrev pub get_admin_domain : Database → String
get_admin_domain d = d.admin_domain

abbrev pub stored_token : String → String → Database → Result String → Database × Result String
stored_token owner client d (ok token) = (
  persist (record d { tokens = insert token (record { owner = owner; client = client }) d.tokens }),
  ok token,
)
stored_token owner client d (err e) = (d, err "Could not generat token")
stored_token owner client d panic = (d, panic)

-- AddToken
unfoldable pub add_token :
    (ℕ → ℕ → Result ℕ) → String → String → Database → Database × Result String
add_token rand owner client d =
    if is_some (lookup owner d.users)
    then stored_token owner client d (gen_random_code rand 32)
    else (d, err "Owner doesn't exist")

-- The copy that GetTokens makes; a map of the model is a value.
abbrev pub get_tokens : Database → GoMap TokenData
get_tokens d = d.tokens

abbrev pub get_token_data : String → Database → Option TokenData
get_token_data token d = lookup token d.tokens

unfoldable pub set_token_data : String → TokenData → Database → Database
set_token_data token data_ d = persist (record d { tokens = insert token data_ d.tokens })

unfoldable pub delete_token_data : String → Database → Database
delete_token_data token d = persist (record d { tokens = delete token d.tokens })

abbrev pub get_tunnels : Database → GoMap Tunnel
get_tunnels d = d.tunnels

abbrev pub get_tunnel : String → Database → Option Tunnel
get_tunnel domain d = lookup domain d.tunnels

unfoldable pub set_tunnel : String → Tunnel → Database → Database
set_tunnel domain tun d = persist (record d { tunnels = insert domain tun d.tunnels })

unfoldable pub delete_tunnel : String → Database → Database
delete_tunnel domain d = persist (record d { tunnels = delete domain d.tunnels })

abbrev pub get_users : Database → GoMap User
get_users d = d.users

abbrev pub get_user : String → Database → Option User
get_user username d = lookup username d.users

unfoldable pub set_user : String → User → Database → Database
set_user username user d = persist (record d { users = insert username user d.users })

abbrev pub new_user : Bool → User
new_user is_admin = record { is_admin = is_admin; clients = some [] }

-- AddUser
unfoldable pub add_user : String → Bool → Database → Database × Result (Unit {0})
add_user username is_admin d =
    if is_some (lookup username d.users)
    then (d, err "User exists")
    else (persist (record d { users = insert username (new_user is_admin) d.users }), ok tt)

unfoldable pub delete_user : String → Database → Database
delete_user username d = persist (record d { users = delete username d.users })
