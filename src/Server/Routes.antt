-- ===== src/Server/Routes.antt =====
-- Where connections and requests go, before and after a tunnel is created and deleted.
use boringproxy.Prelude.{
  ◌≡◌, refl, ◌≢◌, String, true, false, Option, none, some, ◌==◌, if◌then◌else◌, Bool-cases, inl,
  inr, eq_of_test, ne_of_test, test_of_ne, eq_refl,
}
use boringproxy.Prelude.Text.{has_prefix}
use boringproxy.Prelude.GoMap.{lookup}
use boringproxy.Prelude.Result.{Result, ok}
use boringproxy.Http.{Request}
use boringproxy.Outside.{Outside}
use boringproxy.Database.Types.{Tunnel}
use boringproxy.Database.Store.{Database}
use boringproxy.TunnelManager.Manager.{TunnelManager, World, request_create_tunnel, remove_tunnel}
use boringproxy.TunnelManager.Outcome.{
  IsAtomic, added, unchanged, request_create_tunnel-IsAtomic, remove_tunnel_lem,
  request_create_tunnel-tls,
}
use boringproxy.Server.{
  Connection, passed_through, tls_proxied, to_http, connection_for, handle_connection, HttpRoute,
  bad_address, callback, to_api, to_web_ui, to_tunnel, no_tunnel, host_domain, by_host,
  tunnel_or_none, route,
}

IsAtomic-connection :
    (m : TunnelManager) (req : Tunnel) (w w' : World) (r : Result Tunnel) (t : Tunnel)
    (name : String)
    → IsAtomic m req w w' r
    → r ≡ ok t
    → handle_connection name w'.db
      ≡ (if req.domain == name then connection_for true t else handle_connection name w.db)
unfolding handle_connection
IsAtomic-connection m req w w' _ t name (added u _ _ _ _ entries _ _ _) h =
    let same : u ≡ t = cc h in
    elim (Bool-cases (req.domain == name)) [
      | inl e ↦ rw (entries name, e, same)
      | inr e ↦ rw (entries name, e)
    ]
IsAtomic-connection m req w w' _ t name (unchanged r never same) h = absurd (never t h)

pub handle_connection-after :
    (m : TunnelManager) (o : Outside) (req : Tunnel) (w : World) (t : Tunnel) (name : String)
    → (request_create_tunnel m o req w).1 ≡ ok t
    → handle_connection name (request_create_tunnel m o req w).0.db
      ≡ (if req.domain == name then connection_for true t else handle_connection name w.db)
handle_connection-after m o req w t name =
    IsAtomic-connection m req w (request_create_tunnel m o req w).0
      (request_create_tunnel m o req w).1 t name (request_create_tunnel-IsAtomic m o req w)

-- Where a TLS connection for a tunnel goes, for each of the TLS terminations.
pub record FollowsTermination (t : Tunnel) (c : Connection) : Type 0 where
  pub for_client : t.tls_termination ≡ "client" → c ≡ passed_through t
  pub for_client_tls : t.tls_termination ≡ "client-tls" → c ≡ passed_through t
  pub for_passthrough : t.tls_termination ≡ "passthrough" → c ≡ passed_through t
  pub for_server_tls : t.tls_termination ≡ "server-tls" → c ≡ tls_proxied t
  pub for_server : t.tls_termination ≡ "server" → c ≡ to_http

connection_for-FollowsTermination : (t : Tunnel) → FollowsTermination t (connection_for true t)
connection_for-FollowsTermination t = record {
  for_client = λ e. rw e refl;
  for_client_tls = λ e. rw e refl;
  for_passthrough = λ e. rw e refl;
  for_server_tls = λ e. rw e refl;
  for_server = λ e. rw e refl;
}

-- Once a tunnel is created, it has the TLS termination of the request, and a TLS connection for its
-- domain is passed to the tunnel as it is for client, client-tls and passthrough, passed to it with its
-- TLS ended for server-tls, and given to the server's own HTTP handler for server, also if the domain
-- is the server's admin domain; a connection for another name goes where it went.
pub handle_connection-created :
    (m : TunnelManager) (o : Outside) (req : Tunnel) (w : World) (t : Tunnel)
    → (request_create_tunnel m o req w).1 ≡ ok t
    → (t.tls_termination ≡ req.tls_termination)
      × FollowsTermination t (handle_connection req.domain (request_create_tunnel m o req w).0.db)
      × ((name : String)
          → req.domain ≢ name
          → handle_connection name (request_create_tunnel m o req w).0.db
            ≡ handle_connection name w.db)
handle_connection-created m o req w t h = (
  request_create_tunnel-tls m o req t w h,
  rw (handle_connection-after m o req w t req.domain h, eq_refl req.domain)
      (connection_for-FollowsTermination t),
  λ name n. rw (handle_connection-after m o req w t name h, test_of_ne req.domain name n) refl,
)

-- Once a tunnel is deleted, whatever the file system answered, connections for its domain go to the
-- server's own HTTP handler, and those for other names go where they went.
pub handle_connection-removed :
    (m : TunnelManager) (o : Outside) (domain name : String) (w : World)
    → handle_connection name (remove_tunnel m o domain w).0.db
      ≡ (if domain == name then to_http else handle_connection name w.db)
unfolding handle_connection
handle_connection-removed m o domain name w =
    let (entry, _, _, _, _) = remove_tunnel_lem m o domain name w in
    elim (Bool-cases (domain == name)) [ inl e ↦ rw (entry, e) | inr e ↦ rw (entry, e) ]

-- What a route says of the request and the database.
abbrev pub IsRouted : Request → Database → HttpRoute → Type 0
IsRouted r d (bad_address e) = Unit
IsRouted r d callback = r.path ≡ "/namedrop/callback"
IsRouted r d to_api = (host_domain r.host ≡ d.admin_domain) × (has_prefix r.path "/api/" ≡ true)
IsRouted r d to_web_ui = (host_domain r.host ≡ d.admin_domain) × (has_prefix r.path "/api/" ≡ false)
IsRouted r d (to_tunnel t) =
    (host_domain r.host ≢ d.admin_domain) × (lookup (host_domain r.host) d.tunnels ≡ some t)
IsRouted r d (no_tunnel message) =
    (host_domain r.host ≢ d.admin_domain) × (lookup (host_domain r.host) d.tunnels ≡ none)

tunnel_route-IsRouted :
    (r : Request) (d : Database) (found : Option Tunnel)
    → host_domain r.host ≢ d.admin_domain
    → lookup (host_domain r.host) d.tunnels ≡ found
    → IsRouted r d (tunnel_or_none (host_domain r.host) found)
tunnel_route-IsRouted r d none n e = (n, e)
tunnel_route-IsRouted r d (some t) n e = (n, e)

by_host-IsRouted : (r : Request) (d : Database) → IsRouted r d (by_host r d)
by_host-IsRouted r d = elim (Bool-cases (r.path == "/namedrop/callback")) [
  | inl e ↦ rw e (eq_of_test r.path "/namedrop/callback" e)
  | inr e ↦ elim (Bool-cases (host_domain r.host == d.admin_domain)) [
    | inl f ↦ elim (Bool-cases (has_prefix r.path "/api/")) [
      | inl g ↦ rw (e, f, g) (eq_of_test (host_domain r.host) d.admin_domain f, g)
      | inr g ↦ rw (e, f, g) (eq_of_test (host_domain r.host) d.admin_domain f, g)
    ]
    | inr f ↦
        rw (e, f)
          (tunnel_route-IsRouted r d _ (ne_of_test (host_domain r.host) d.admin_domain f) refl)
  ]
]

-- A request whose remote address splits is routed: the API and the web interface get requests for the
-- admin domain alone, the API those under /api/; a tunnel gets a request only if it is the one stored
-- under the request's host and that is not the admin domain; and the answer that there is no tunnel
-- is given only where none is stored.
pub route-IsRouted :
    (remote_ip : String) (r : Request) (d : Database)
    → (to : HttpRoute) × (route (ok remote_ip) r d ≡ ok to) × IsRouted r d to
unfolding route
route-IsRouted remote_ip r d = (by_host r d, refl, by_host-IsRouted r d)
