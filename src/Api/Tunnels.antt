-- ===== src/Api/Tunnels.antt =====
-- GetTunnel, GetTunnels, CreateTunnel and DeleteTunnel of api.go.
use boringproxy.Prelude.{
  String, Bool, not, Option, none, some, ◌==◌, ◌!=◌, ◌&&◌, ◌||◌, if◌then◌else◌, or_zero,
}
use boringproxy.Prelude.GoMap.{GoMap, filter}
use boringproxy.Prelude.Int.{ℤ, pos, atoi}
use boringproxy.Prelude.Result.{Result, ok, err, panic, fail_if, with_message, ◌>>=◌, ◌>>◌}
use boringproxy.Http.{Values, get}
use boringproxy.Outside.{Outside}
use boringproxy.Database.Types.{TokenData, User, Tunnel, zero_user}
use boringproxy.Database.Store.{Database, get_user, get_tunnel, get_tunnels, get_admin_domain}
use boringproxy.TunnelManager.Manager.{
  Config, TunnelManager, World, request_create_tunnel, remove_tunnel,
}

-- `user, _ := a.db.GetUser(tokenData.Owner)`: the zero user where there is none
abbrev pub caller : TokenData → Database → User
caller token_data d = or_zero zero_user (get_user token_data.owner d)

abbrev pub visible_or_fail : TokenData → User → Option Tunnel → Result Tunnel
visible_or_fail token_data user none = err "Tunnel doesn't exist for domain"
visible_or_fail token_data user (some tun) =
    if user.is_admin || tun.owner == token_data.owner then ok tun else err "Unauthorized"

-- GetTunnel
unfoldable pub api_get_tunnel : TokenData → Values → Database → Result Tunnel
api_get_tunnel token_data params d =
    if get "domain" params == ""
    then err "Invalid domain parameter"
    else visible_or_fail token_data (caller token_data d) (get_tunnel (get "domain" params) d)

-- GetTunnels: an admin's are all of them, another user's those that it owns
unfoldable pub api_get_tunnels : TokenData → Database → GoMap Tunnel
api_get_tunnels token_data d =
    if (caller token_data d).is_admin
    then get_tunnels d
    else filter (λ domain tun. token_data.owner == tun.owner) (get_tunnels d)

-- An integer parameter, with its default where it is empty.
abbrev pub int_param : ℤ → String → String → Result ℤ
int_param default text message = if text == "" then ok default else with_message message (atoi text)

abbrev pub tunnel_port_param : String → Result ℤ
tunnel_port_param text =
    if text != "" && text != "Random"
    then with_message "Invalid tunnel-port parameter" (atoi text)
    else ok (pos 0)

abbrev pub text_or : String → String → String
text_or default text = if text == "" then default else text

abbrev pub is_tls_termination : String → Bool
is_tls_termination t =
    t == "server" || t == "client" || t == "passthrough" || t == "client-tls" || t == "server-tls"

abbrev pub credential : Bool → String → String → Result String
credential protect text message =
    if protect then (if text == "" then err message else ok text) else ok ""

-- The part of CreateTunnel that reads and checks the parameters: the tunnel that is asked for.
unfoldable pub tunnel_request : Config → TokenData → Values → Database → Result Tunnel
tunnel_request config token_data params d = do
  let domain = get "domain" params
  fail_if (domain == "") "Invalid domain parameter"
  let owner = get "owner" params
  fail_if (owner == "") "Invalid owner parameter"
  fail_if (token_data.owner != owner && not (caller token_data d).is_admin) "Unauthorized"
  client_port ← int_param (pos 0) (get "client-port" params) "Invalid client-port parameter"
  tunnel_port ← tunnel_port_param (get "tunnel-port" params)
  let password_protect = get "password-protect" params == "on"
  username ← credential password_protect (get "username" params) "Username required"
  password ← credential password_protect (get "password" params) "Password required"
  let tls_term = get "tls-termination" params
  fail_if (not (is_tls_termination tls_term)) "Invalid tls-termination parameter"
  ssh_server_port ←
      int_param config.ssh_server_port (get "ssh-server-port" params)
        "Invalid ssh-server-port parameter"
  ok (record {
    domain = domain;
    server_address = text_or (get_admin_domain d) (get "ssh-server-addr" params);
    server_port = ssh_server_port;
    server_public_key = "";
    username = "";
    tunnel_port = tunnel_port;
    tunnel_private_key = "";
    client_address = text_or "127.0.0.1" (get "client-addr" params);
    client_port = client_port;
    allow_external_tcp = get "allow-external-tcp" params == "on";
    tls_termination = tls_term;
    owner = owner;
    client_name = get "client-name" params;
    auth_username = username;
    auth_password = password;
  })

abbrev pub requested : TunnelManager → Outside → World → Result Tunnel → World × Result Tunnel
requested m o w (ok req) = request_create_tunnel m o req w
requested m o w (err e) = (w, err e)
requested m o w panic = (w, panic)

-- CreateTunnel
unfoldable pub api_create_tunnel :
    TunnelManager → Outside → TokenData → Values → World → World × Result Tunnel
api_create_tunnel m o token_data params w =
    requested m o w (tunnel_request m.config token_data params w.db)

abbrev deletable : TokenData → Database → Option Tunnel → Result (Unit {0})
deletable token_data d none = err "Tunnel doesn't exist"
deletable token_data d (some tun) =
    fail_if (token_data.owner != tun.owner && not (caller token_data d).is_admin) "Unauthorized"

-- The checks of DeleteTunnel.
unfoldable pub may_delete_tunnel : TokenData → Values → Database → Result (Unit {0})
may_delete_tunnel token_data params d = do
  fail_if (get "domain" params == "") "Invalid domain parameter"
  deletable token_data d (get_tunnel (get "domain" params) d)

-- The tunnel manager's own error is dropped.
abbrev dropped : World × Result (Unit {0}) → World × Result (Unit {0})
dropped p = (p.0, ok tt)

abbrev pub deleted :
    TunnelManager → Outside → String → World → Result (Unit {0}) → World × Result (Unit {0})
deleted m o domain w (ok _) = dropped (remove_tunnel m o domain w)
deleted m o domain w (err e) = (w, err e)
deleted m o domain w panic = (w, panic)

-- DeleteTunnel
unfoldable pub api_delete_tunnel :
    TunnelManager → Outside → TokenData → Values → World → World × Result (Unit {0})
api_delete_tunnel m o token_data params w =
    deleted m o (get "domain" params) w (may_delete_tunnel token_data params w.db)
