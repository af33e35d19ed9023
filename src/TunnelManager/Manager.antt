-- ===== src/TunnelManager/Manager.antt =====
-- The tunnel manager's operations on the state that it shares: the database and authorized_keys.
-- The mutex is held from the port choice of a creation, and throughout a deletion.
use boringproxy.Prelude.{
  String, Bool, not, Option, none, some, List, [], ◌∷◌, ◌==◌, ◌&&◌, ◌||◌, if◌then◌else◌,
}
use boringproxy.Prelude.GoMap.{GoMap}
use boringproxy.Prelude.Int.{ℤ, pos, eq_ℤ}
use boringproxy.Prelude.Text.{◌⧺◌}
use boringproxy.Prelude.Result.{Result, ok, err, panic, fail_if, ◌>>=◌, ◌>>◌}
use boringproxy.Outside.{Outside}
use boringproxy.Utils.{random_open_port}
use boringproxy.Database.Types.{Tunnel}
use boringproxy.Database.Store.{Database, get_tunnels, get_tunnel, set_tunnel, delete_tunnel}
use boringproxy.TunnelManager.Keys.{add_to_authorized_keys, remove_from_authorized_keys}

-- The parts of `Config` that the server's operations read.
pub record Config : Type 0 where
  pub ssh_server_port : ℤ
  pub public_ip : String
  pub auto_certs : Bool

-- The user that the server runs as.
pub record OsUser : Type 0 where
  pub username : String
  pub home_dir : String

pub record TunnelManager : Type 0 where
  pub config : Config
  pub user : OsUser

-- What a request may change.
pub record World : Type 0 where
  pub db : Database
  pub authorized_keys : Option String

-- GetTunnels
abbrev pub all_tunnels : World → GoMap Tunnel
all_tunnels w = get_tunnels w.db

abbrev pub needs_cert : String → Bool
needs_cert tls_termination = tls_termination == "server" || tls_termination == "server-tls"

-- The checks before the lock.
unfoldable pub precheck : TunnelManager → Outside → Tunnel → Result (Unit {0})
precheck m o req = do
  fail_if (req.domain == "") "Domain required"
  fail_if (req.owner == "") "Owner required"
  fail_if (needs_cert req.tls_termination && m.config.auto_certs && not (o.manage_sync req.domain))
      "Failed to get cert"

unfoldable pub with_port : Outside → Tunnel → Result Tunnel
unfolding random_open_port
with_port o req =
    if eq_ℤ req.tunnel_port (pos 0)
    then (do port ← random_open_port o.listen; ok (record req { tunnel_port = port }))
    else ok req

-- The loop over the tunnels that exist.
unfoldable pub no_conflict : Tunnel → GoMap Tunnel → Result (Unit {0})
no_conflict req [] = ok tt
no_conflict req ((k, tun) ∷ tunnels) = do
  fail_if (req.domain == tun.domain) "Tunnel domain already in use"
  fail_if (eq_ℤ req.tunnel_port tun.tunnel_port) "Tunnel port already in use"
  no_conflict req tunnels

-- All that comes before the file is touched: the request with its port, if it is admitted.
unfoldable pub admit : TunnelManager → Outside → Tunnel → Database → Result Tunnel
unfolding precheck with_port no_conflict
admit m o req d = do precheck m o req; t ← with_port o req; no_conflict t (get_tunnels d); ok t

abbrev pub completed : TunnelManager → Tunnel → String → Tunnel
completed m t priv_key = record t {
  server_public_key = "";
  username = m.user.username;
  tunnel_private_key = priv_key;
}

abbrev pub stored :
    TunnelManager → Tunnel → World → Option String × Result String → World × Result Tunnel
stored m t w (file, ok priv_key) =
    let t' = completed m t priv_key in
    (record w { db = set_tunnel t.domain t' w.db; authorized_keys = file }, ok t')
stored m t w (file, err e) = (record w { authorized_keys = file }, err e)
stored m t w (file, panic) = (record w { authorized_keys = file }, panic)

abbrev pub created : TunnelManager → Outside → World → Result Tunnel → World × Result Tunnel
created m o w (ok t) =
    stored m t w
      (add_to_authorized_keys o t.domain t.tunnel_port t.allow_external_tcp w.authorized_keys)
created m o w (err e) = (w, err e)
created m o w panic = (w, panic)

-- RequestCreateTunnel
unfoldable pub request_create_tunnel :
    TunnelManager → Outside → Tunnel → World → World × Result Tunnel
unfolding admit set_tunnel
request_create_tunnel m o req w = created m o w (admit m o req w.db)

abbrev pub keys_path : TunnelManager → String
keys_path m = m.user.home_dir ⧺ "/.ssh/authorized_keys"

abbrev pub removed : World → String → Option String × Result (Unit {0}) → World × Result (Unit {0})
removed w domain (file, r) =
    (record w { db = delete_tunnel domain w.db; authorized_keys = file }, r)

abbrev pub delete_found :
    TunnelManager → Outside → String → World → Option Tunnel → World × Result (Unit {0})
delete_found m o domain w none = (w, err "Tunnel doesn't exist")
delete_found m o domain w (some t) =
    removed w domain
      (remove_from_authorized_keys o (keys_path m) domain t.tunnel_port w.authorized_keys)

-- DeleteTunnel: the entry is deleted before the file is read
unfoldable pub remove_tunnel : TunnelManager → Outside → String → World → World × Result (Unit {0})
unfolding delete_tunnel
remove_tunnel m o domain w = delete_found m o domain w (get_tunnel domain w.db)

abbrev port_or_fail : Option Tunnel → Result ℤ
port_or_fail none = err "Doesn't exist"
port_or_fail (some t) = ok t.tunnel_port

-- GetPort
unfoldable pub get_port : String → World → Result ℤ
get_port domain w = port_or_fail (get_tunnel domain w.db)

-- The loop of NewTunnelManager: the domains for which a certificate is asked at startup.
unfoldable pub managed_domains : Bool → GoMap Tunnel → List String
managed_domains auto_certs [] = []
managed_domains auto_certs ((domain, tun) ∷ tunnels) =
    let rest = managed_domains auto_certs tunnels in
    if auto_certs && needs_cert tun.tls_termination then domain ∷ rest else rest
