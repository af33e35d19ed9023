-- ===== src/Database/Codec.antt =====
-- The struct tags of database.go: what `persist` marshals and `NewDatabase` reads back.
use boringproxy.Prelude.{
  ◌≡◌, refl, false, Option, none, some, [], ◌==◌, if◌then◌else◌, arith, eq_iff,
}
use boringproxy.Prelude.Int.{pos}
use boringproxy.Prelude.GoMap.{GoMap}
use boringproxy.Prelude.Json.{
  Json, null, bool, number, str, object, end, member, field, as_text, as_bool, as_int, encode_map,
  decode_map, decode_map-encode_map, ◌>>=◌,
}
use boringproxy.Database.Types.{
  TokenData, DbClient, User, Tunnel, zero_token_data, zero_user, zero_tunnel,
}

-- `client` is left out where it is empty.
unfoldable pub encode_token_data : TokenData → Json
encode_token_data t = object (
    member "owner" (str t.owner)
      (if t.client == "" then end else member "client" (str t.client) end))

unfoldable pub decode_token_data : Json → Option TokenData
unfolding field
decode_token_data null = some zero_token_data
decode_token_data (object ms) = do
  owner ← as_text (field "owner" ms)
  client ← as_text (field "client" ms)
  some (record { owner = owner; client = client })
decode_token_data _ = none

unfoldable pub encode_client : DbClient → Json
encode_client c = object end

unfoldable pub decode_client : Json → Option DbClient
decode_client null = some (record {})
decode_client (object ms) = some (record {})
decode_client _ = none

-- A nil map is written as `null`.
unfoldable pub encode_clients : Option (GoMap DbClient) → Json
unfolding encode_map encode_client
encode_clients none = null
encode_clients (some m) = object (encode_map encode_client m)

unfoldable pub decode_clients : Json → Option (Option (GoMap DbClient))
unfolding decode_map decode_client
decode_clients null = some none
decode_clients (object ms) = do m ← decode_map decode_client ms; some (some m)
decode_clients _ = none

unfoldable pub encode_user : User → Json
unfolding encode_clients
encode_user u =
    object (member "is_admin" (bool u.is_admin) (member "clients" (encode_clients u.clients) end))

unfoldable pub decode_user : Json → Option User
unfolding field decode_clients
decode_user null = some zero_user
decode_user (object ms) = do
  is_admin ← as_bool false (field "is_admin" ms)
  clients ← decode_clients (field "clients" ms)
  some (record { is_admin = is_admin; clients = clients })
decode_user _ = none

unfoldable pub encode_tunnel : Tunnel → Json
encode_tunnel t = object (
    member "domain" (str t.domain) (
      member "server_address" (str t.server_address) (
        member "server_port" (number t.server_port) (
          member "server_public_key" (str t.server_public_key) (
            member "username" (str t.username) (
              member "tunnel_port" (number t.tunnel_port) (
                member "tunnel_private_key" (str t.tunnel_private_key) (
                  member "client_address" (str t.client_address) (
                    member "client_port" (number t.client_port) (
                      member "allow_external_tcp" (bool t.allow_external_tcp) (
                        member "tls_termination" (str t.tls_termination) (
                          member "owner" (str t.owner) (
                            member "client_name" (str t.client_name) (
                              member "auth_username" (str t.auth_username)
                                (member "auth_password" (str t.auth_password) end)))))))))))))))

unfoldable pub decode_tunnel : Json → Option Tunnel
unfolding field
decode_tunnel null = some zero_tunnel
decode_tunnel (object ms) = do
  domain ← as_text (field "domain" ms)
  server_address ← as_text (field "server_address" ms)
  server_port ← as_int (pos 0) (field "server_port" ms)
  server_public_key ← as_text (field "server_public_key" ms)
  username ← as_text (field "username" ms)
  tunnel_port ← as_int (pos 0) (field "tunnel_port" ms)
  tunnel_private_key ← as_text (field "tunnel_private_key" ms)
  client_address ← as_text (field "client_address" ms)
  client_port ← as_int (pos 0) (field "client_port" ms)
  allow_external_tcp ← as_bool false (field "allow_external_tcp" ms)
  tls_termination ← as_text (field "tls_termination" ms)
  owner ← as_text (field "owner" ms)
  client_name ← as_text (field "client_name" ms)
  auth_username ← as_text (field "auth_username" ms)
  auth_password ← as_text (field "auth_password" ms)
  some (record {
    domain = domain;
    server_address = server_address;
    server_port = server_port;
    server_public_key = server_public_key;
    username = username;
    tunnel_port = tunnel_port;
    tunnel_private_key = tunnel_private_key;
    client_address = client_address;
    client_port = client_port;
    allow_external_tcp = allow_external_tcp;
    tls_termination = tls_termination;
    owner = owner;
    client_name = client_name;
    auth_username = auth_username;
    auth_password = auth_password;
  })
decode_tunnel _ = none

-- A map field of the database: `null` or missing leaves the map nil, which `NewDatabase` replaces by
-- an empty one.
abbrev pub decode_map_field {ℓ} : {V : Type ℓ} → (Json → Option V) → Json → Option (GoMap V)
decode_map_field f null = some []
decode_map_field f (object ms) = decode_map f ms
decode_map_field f _ = none

pub decode_token_data-encode_token_data :
    (t : TokenData) → decode_token_data (encode_token_data t) ≡ some t
unfolding decode_token_data encode_token_data
decode_token_data-encode_token_data t = ground (arith, eq_iff t.client "")

decode_client-encode_client : (c : DbClient) → decode_client (encode_client c) ≡ some c
unfolding decode_client encode_client
decode_client-encode_client c = refl

decode_clients-encode_clients :
    (m : Option (GoMap DbClient)) → decode_clients (encode_clients m) ≡ some m
unfolding decode_clients encode_clients
decode_clients-encode_clients none = refl
decode_clients-encode_clients (some m) =
    rw (decode_map-encode_map encode_client decode_client decode_client-encode_client m)

-- A user, with a client map or without one, is read back from its JSON as it was.
pub decode_user-encode_user : (u : User) → decode_user (encode_user u) ≡ some u
unfolding decode_user encode_user
decode_user-encode_user u = rw (decode_clients-encode_clients u.clients)

-- A tunnel is read back from its JSON as it was, with each of its fifteen fields.
pub decode_tunnel-encode_tunnel : (t : Tunnel) → decode_tunnel (encode_tunnel t) ≡ some t
unfolding decode_tunnel encode_tunnel
decode_tunnel-encode_tunnel t = refl
