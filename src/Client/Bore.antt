-- ===== src/Client/Bore.antt =====
-- client.go: BoreTunnel, up to what it serves on the listener at the server; tls_proxy.go: who ends TLS
-- in a connection that is passed on, and where it is passed on to.
use boringproxy.Prelude.{String, Bool, true, false, Option, none, some, ◌==◌, ◌!=◌, if◌then◌else◌}
use boringproxy.Prelude.Int.{ℤ, itoa}
use boringproxy.Prelude.Text.{◌⧺◌, has_prefix, trim_prefix}
use boringproxy.Prelude.Result.{Result, ok, err, ◌>>=◌}
use boringproxy.Database.Types.{Tunnel}

-- What package ssh answers: the errors of ParsePrivateKey, of Dial for a host and a user, and of Listen,
-- where they are not nil.
pub record Ssh : Type 0 where
  pub parse_private_key : String → Option String
  pub dial : String → String → Option String
  pub listen : String → Option String

-- What is served: HTTP behind TLS, or connections, with useTls of ProxyTcp.
pub data Serving : Type 0 where
  https : Serving
  tcp : Bool → Serving

pub record Bored : Type 0 where
  pub address : String
  pub serving : Serving
  -- the domain that certmagic is asked to manage
  pub managed : Option String

abbrev pub no_error : String → Option String → Result (Unit {0})
no_error message none = ok tt
no_error message (some e) = err (message ⧺ e)

abbrev pub tunnel_address : Tunnel → String
tunnel_address t =
    (if t.allow_external_tcp then "0.0.0.0" else "127.0.0.1") ⧺ ":" ⧺ itoa t.tunnel_port

abbrev pub serving_for : String → Serving
serving_for tls_termination =
    if tls_termination == "client" then https else tcp (tls_termination == "client-tls")

-- BoreTunnel, until it waits for its context
unfoldable pub bore_tunnel : Ssh → Tunnel → Result Bored
unfolding itoa
bore_tunnel ssh t = do
  _ ← no_error "Unable to parse private key: " (ssh.parse_private_key t.tunnel_private_key)
  _ ←
      no_error "Failed to dial: "
        (ssh.dial (t.server_address ⧺ ":" ⧺ itoa t.server_port) t.username)
  _ ←
      no_error ("Unable to register tcp forward for " ⧺ tunnel_address t ⧺ " ")
        (ssh.listen (tunnel_address t))
  ok (record {
    address = tunnel_address t;
    serving = serving_for t.tls_termination;
    managed = if t.tls_termination != "passthrough" then some t.domain else none;
  })

-- What ProxyTcp does with a connection: it ends TLS in it or not, and hands it on, or closes it.
pub data Proxied : Type 0 where
  closed : Proxied
  handed_on : Bool → Proxied

-- ProxyTcp, with the protocol that a TLS handshake negotiates
unfoldable pub proxy_tcp : Bool → String → Proxied
proxy_tcp use_tls negotiated =
    if use_tls
    then (if negotiated == "acme-tls/1" then closed else handed_on true)
    else handed_on false

pub record Upstream : Type 0 where
  pub use_tls : Bool
  pub address : String

-- The part of handleConnection (tls_proxy.go) that chooses what to dial.
unfoldable pub dialled : String → ℤ → Upstream
unfolding has_prefix trim_prefix itoa
dialled upstream_addr port = record {
  use_tls = has_prefix upstream_addr "https://";
  address = trim_prefix upstream_addr "https://" ⧺ ":" ⧺ itoa port;
}
