-- ===== src/Server.antt =====
-- boringproxy.go: where the server takes a TLS connection and an HTTP request, and the first admin.
-- auth.go's Authorized.
pub mod Routes
pub mod Admin
pub mod Callback
pub mod Listen
pub mod Termination
pub mod Startup
use boringproxy.Prelude.{
  ℕ, String, Bool, true, false, not, Option, none, some, List, [], ◌∷◌, ◌==◌, ◌||◌, ◌&&◌,
  if◌then◌else◌, is_some,
}
use boringproxy.Prelude.Text.{◌⧺◌, split, has_prefix}
use boringproxy.Prelude.GoMap.{GoMap, lookup}
use boringproxy.Prelude.Result.{Result, ok, err, panic}
use boringproxy.Http.{Request}
use boringproxy.Database.Types.{Tunnel, User, zero_tunnel}
use boringproxy.Database.Store.{
  Database, get_tunnel, get_users, get_admin_domain, get_token_data, add_user, add_token,
}

-- What handleConnection does with a connection.
pub data Connection : Type 0 where
  passed_through : Tunnel → Connection
  tls_proxied : Tunnel → Connection
  to_http : Connection

-- The conditions of handleConnection, with Go's precedence of && over ||.
abbrev pub connection_for : Bool → Tunnel → Connection
connection_for exists tunnel =
    if exists && (tunnel.tls_termination == "client" || tunnel.tls_termination == "passthrough")
      || tunnel.tls_termination == "client-tls"
    then passed_through tunnel
    else if exists && tunnel.tls_termination == "server-tls"
    then tls_proxied tunnel
    else to_http

abbrev pub connection : Option Tunnel → Connection
connection none = connection_for false zero_tunnel
connection (some tunnel) = connection_for true tunnel

-- handleConnection, for the server name of the ClientHello
unfoldable pub handle_connection : String → Database → Connection
unfolding lookup
handle_connection server_name d = connection (get_tunnel server_name d)

-- Who serves an HTTP request.
pub data HttpRoute : Type 0 where
  bad_address : String → HttpRoute
  callback : HttpRoute
  to_api : HttpRoute
  to_web_ui : HttpRoute
  to_tunnel : Tunnel → HttpRoute
  no_tunnel : String → HttpRoute

abbrev host_part : List String → String
host_part [] = ""
host_part (part ∷ parts) = part

unfoldable pub host_domain : String → String
unfolding split
host_domain host = host_part (split b':' host)

abbrev pub tunnel_or_none : String → Option Tunnel → HttpRoute
tunnel_or_none domain none = no_tunnel ("No tunnel attached to " ⧺ domain)
tunnel_or_none domain (some tunnel) = to_tunnel tunnel

abbrev pub by_host : Request → Database → HttpRoute
by_host r d =
    if r.path == "/namedrop/callback"
    then callback
    else if host_domain r.host == get_admin_domain d
    then (if has_prefix r.path "/api/" then to_api else to_web_ui)
    else tunnel_or_none (host_domain r.host) (get_tunnel (host_domain r.host) d)

-- The handler of "/", with what net.SplitHostPort makes of the remote address.
unfoldable pub route : Result String → Request → Database → Result HttpRoute
unfolding host_domain
route (ok remote_ip) r d = ok (by_host r d)
route (err e) r d = ok (bad_address e)
route panic r d = panic

abbrev pub initialized : Database × Result String → Result Database
initialized (d, ok token) = ok d
initialized (d, err e) = err "Failed to initialize admin user"
initialized (d, panic) = panic

abbrev pub add_admin : (ℕ → ℕ → Result ℕ) → Database → GoMap User → Result Database
add_admin rand d [] = initialized (add_token rand "admin" "" (add_user "admin" true d).0)
add_admin rand d (user ∷ users) = ok d

-- The part of Listen that adds the admin user; the error is fatal.
unfoldable pub init_admin : (ℕ → ℕ → Result ℕ) → Database → Result Database
unfolding add_user add_token
init_admin rand d = add_admin rand d (get_users d)

-- Authorized
unfoldable pub authorized : String → Database → Bool
authorized token d = is_some (get_token_data token d)
