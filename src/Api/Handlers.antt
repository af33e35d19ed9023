-- ===== src/Api/Handlers.antt =====
-- The handlers of api.go: ServeHTTP, handleTunnels, handleUsers, handleTokens and handleClients. A
-- panic is recovered by net/http, which drops the connection and keeps what was changed before.
use boringproxy.Prelude.{
  ℕ, String, not, Option, none, some, [], ◌∷◌, ◌==◌, ◌!=◌, ◌&&◌, if◌then◌else◌,
}
use boringproxy.Prelude.GoMap.{GoMap, filter, map_values}
use boringproxy.Prelude.Int.{ℤ}
use boringproxy.Prelude.Json.{Json, object, encode_map}
use boringproxy.Prelude.Text.{◌⧺◌, has_prefix}
use boringproxy.Prelude.Result.{Result, ok, err, panic}
use boringproxy.Http.{
  Request, Writer, fresh_writer, refuse, write, write_header, set_header, json, plain, get,
  parse_form,
}
use boringproxy.Outside.{Outside}
use boringproxy.Utils.{extract_token}
use boringproxy.Database.Types.{TokenData, Tunnel}
use boringproxy.Database.Codec.{encode_tunnel, encode_user, encode_token_data}
use boringproxy.Database.Store.{Database, get_token_data}
use boringproxy.TunnelManager.Manager.{TunnelManager, World}
use boringproxy.Api.Tunnels.{api_get_tunnels, api_create_tunnel, api_delete_tunnel}
use boringproxy.Api.Tokens.{api_create_token, api_get_tokens}
use boringproxy.Api.Users.{api_get_users, api_create_user}
use boringproxy.Api.Clients.{api_set_client, api_delete_client}

abbrev pub Served : Type 0
Served = World × Result Writer

abbrev pub refused : ℕ → String → World → Served
refused code message w = (w, ok (refuse code message fresh_writer))

abbrev pub known : ℕ → String → World → Option TokenData → (TokenData → Served) → Served
known code message w none k = refused code message w
known code message w (some token_data) k = k token_data

abbrev pub with_token : String → ℕ → String → World → Result String → (TokenData → Served) → Served
with_token missing code unknown w (ok token) k = known code unknown w (get_token_data token w.db) k
with_token missing code unknown w (err e) k = refused 401 missing w
with_token missing code unknown w panic k = (w, panic)

-- The head of every handler: no token is refused with 401, an unknown one with the handler's code.
abbrev pub authenticated : String → ℕ → String → Request → World → (TokenData → Served) → Served
authenticated missing code unknown r w k =
    with_token missing code unknown w (extract_token "access_token" r) k

-- `if err != nil` with the error as a 500
abbrev pub or_500 {ℓ} : {A : Type ℓ} → World × Result A → (A → Writer) → Served
or_500 (w, ok a) f = (w, ok (f a))
or_500 (w, err e) f = refused 500 e w
or_500 (w, panic) f = (w, panic)

-- A call on the database alone.
abbrev pub on_db {ℓ} : {A : Type ℓ} → World → Database × Result A → World × Result A
on_db w (d, r) = (record w { db = d }, r)

-- The tunnels that a GET sends: those of the caller, of the token's client only if it has one, and of
-- the client that is asked for, then with the server's SSH port.
unfoldable pub sent_tunnels : ℤ → TokenData → String → Database → GoMap Tunnel
sent_tunnels ssh_server_port token_data client_name d =
    let all = api_get_tunnels token_data d in
    let own =
      if token_data.client != ""
      then filter (λ k tun. not (token_data.client != tun.client_name)) all
      else all in
    if client_name != ""
    then map_values (λ tun. record tun { server_port = ssh_server_port })
        (filter (λ k tun. not (tun.client_name != client_name)) own)
    else own

abbrev tunnels_reply : Outside → Json → Writer
tunnels_reply o body = write (json body) (set_header "ETag" (o.digest body ∷ []) fresh_writer)

unfoldable pub get_tunnels_reply : TunnelManager → Outside → TokenData → String → World → Served
get_tunnels_reply m o token_data client_name w =
    if client_name != "" && token_data.client != "" && client_name != token_data.client
    then refused 403 "Token is not valid for this client" w
    else (
      w,
      ok (
          tunnels_reply o (
            object (
              encode_map encode_tunnel
                (sent_tunnels m.config.ssh_server_port token_data client_name w.db)))),
    )

-- handleTunnels
unfoldable pub handle_tunnels : TunnelManager → Outside → Request → World → Served
handle_tunnels m o r w = authenticated "No token provided" 403 "Not authorized" r w λ token_data.
    if r.method == "GET"
    then get_tunnels_reply m o token_data (get "client-name" r.query) w
    else if r.method == "POST"
    then (if token_data.client != ""
        then refused 403 "Token cannot be used to create tunnels" w
        else or_500 (api_create_tunnel m o token_data (parse_form r) w) (λ t. fresh_writer))
    else if r.method == "DELETE"
    then (if token_data.client != ""
        then refused 403 "Token cannot be used to delete tunnels" w
        else or_500 (api_delete_tunnel m o token_data (parse_form r) w) (λ u. fresh_writer))
    else refused 405 "Invalid method for /tunnels" w

-- handleUsers
unfoldable pub handle_users : Request → World → Served
handle_users r w = authenticated "Invalid token" 401 "Failed to get token" r w λ token_data.
    if token_data.client != ""
    then refused 403 "Token cannot be used to manage users" w
    else if r.method == "GET"
    then (
      w,
      ok (
          write (json (object (encode_map encode_user (api_get_users token_data w.db))))
            fresh_writer),
    )
    else if r.method == "POST"
    then or_500 (on_db w (api_create_user token_data (parse_form r) w.db)) (λ u. fresh_writer)
    else refused 405 "Invalid method for /users" w

-- After an error the empty token is written too.
abbrev pub token_reply : World × Result String → Served
token_reply (w, ok token) = (w, ok (write (plain token) fresh_writer))
token_reply (w, err e) = (w, ok (write (plain "") (refuse 500 e fresh_writer)))
token_reply (w, panic) = (w, panic)

-- handleTokens
unfoldable pub handle_tokens : Outside → Request → World → Served
handle_tokens o r w = authenticated "No token provided" 403 "Not authorized" r w λ token_data.
    if token_data.client != ""
    then refused 403 "Token cannot be used to manage tokens" w
    else if r.method == "GET"
    then (
      w,
      ok (
          write (json (object (encode_map encode_token_data (api_get_tokens token_data w.db))))
            fresh_writer),
    )
    else if r.method == "POST"
    then token_reply (on_db w (api_create_token o.random token_data (parse_form r) w.db))
    else refused 405 "Invalid method for /api/tokens" w

abbrev or_default : String → String → String
or_default default text = if text == "" then default else text

-- The end of handleClients, with the client and the user chosen.
unfoldable pub manage_client : TokenData → String → String → Request → World → Served
manage_client token_data user client_name r w =
    if token_data.client != "" && token_data.client != client_name
    then refused 403 "Token does not have proper permissions" w
    else if r.method == "POST"
    then or_500 (on_db w (api_set_client token_data user client_name w.db)) (λ u. fresh_writer)
    else if r.method == "DELETE"
    then or_500 (on_db w (api_delete_client token_data user client_name w.db)) (λ u. fresh_writer)
    else refused 405 "Invalid method for /api/clients" w

-- handleClients: the client is the token's own unless one is named
unfoldable pub handle_clients : Request → World → Served
handle_clients r w = authenticated "No token provided" 403 "Not authorized" r w λ token_data.
    let form = parse_form r in
    if get "client-name" form == "" && token_data.client == ""
    then refused 400 "Missing client-name parameter" w
    else manage_client token_data (or_default token_data.owner (get "user" form))
        (or_default token_data.client (get "client-name" form)) r w

-- http.RedirectHandler, as the mux uses it: url.URL's String adds the query, if there is one.
abbrev pub moved : String → String → World → Served
moved path raw_query w =
    let location = if raw_query == "" then path else path ⧺ "?" ⧺ raw_query in
    (w, ok (write_header 301 (set_header "Location" (location ∷ []) fresh_writer)))

-- ServeHTTP: the routes of the mux, on the path behind "/api" in the clean form that the mux gives
-- it. A path that lacks only the last slash of a route is redirected, with its query.
unfoldable pub serve_http : TunnelManager → Outside → Request → World → Served
serve_http m o r w =
    if r.path == "/tunnels"
    then handle_tunnels m o r w
    else if has_prefix r.path "/users/"
    then handle_users r w
    else if has_prefix r.path "/tokens/"
    then handle_tokens o r w
    else if has_prefix r.path "/clients/"
    then handle_clients r w
    else if r.path == "/users"
    then moved "/users/" r.raw_query w
    else if r.path == "/tokens"
    then moved "/tokens/" r.raw_query w
    else if r.path == "/clients"
    then moved "/clients/" r.raw_query w
    else refused 404 "404 page not found" w
