-- ===== src/Server/Termination.antt =====
-- Who ends TLS for a tunnel: the server, or the client that bores it.
use boringproxy.Prelude.{
  ◌≡◌, refl, ◌∙◌, sym, ap, String, ◌⊎◌, inl, inr, Bool, true, false, not, ◌==◌, ◌&&◌, ◌||◌, eq_refl,
  arith, eq_iff,
}
use boringproxy.Prelude.Result.{Result, ok, err, panic, >>=-eq-ok}
use boringproxy.Http.{Values}
use boringproxy.Outside.{Outside}
use boringproxy.Database.Types.{TokenData, Tunnel}
use boringproxy.TunnelManager.Manager.{TunnelManager, World, request_create_tunnel}
use boringproxy.TunnelManager.Outcome.{
  IsAtomic, added, unchanged, request_create_tunnel-tls, request_create_tunnel-IsAtomic,
}
use boringproxy.Api.Tunnels.{api_create_tunnel, tunnel_request, requested, is_tls_termination}
use boringproxy.Api.Requests.{tunnel_request-IsGranted}
use boringproxy.Client.Bore.{
  Ssh, Bored, Serving, https, tcp, serving_for, bore_tunnel, no_error, tunnel_address,
}
use boringproxy.Server.{
  Connection, passed_through, tls_proxied, to_http, connection_for, handle_connection,
}
use boringproxy.Server.Routes.{handle_connection-after}

-- Whether a connection's TLS is ended at the server, and by what a client serves.
abbrev pub ends_at_server : Connection → Bool
ends_at_server (passed_through t) = false
ends_at_server (tls_proxied t) = true
ends_at_server to_http = true

abbrev pub ends_at_client : Serving → Bool
ends_at_client https = true
ends_at_client (tcp use_tls) = use_tls

-- TLS is ended at one of two places, but for passthrough, where it is ended at neither.
abbrev pub EndsOnce : Bool → Bool → String → Type 0
EndsOnce at_server at_client tls_termination =
    ((at_server && at_client) ≡ false)
    × ((at_server || at_client) ≡ not (tls_termination == "passthrough"))

terminations :
    (s : String)
    → is_tls_termination s ≡ true
    → (s ≡ "server")
      ⊎ (s ≡ "client")
      ⊎ (s ≡ "passthrough")
      ⊎ (s ≡ "client-tls")
      ⊎ (s ≡ "server-tls")
terminations s h = ground (
  arith,
  eq_iff s "server",
  eq_iff s "client",
  eq_iff s "passthrough",
  eq_iff s "client-tls",
  eq_iff s "server-tls",
)

connection_for-EndsOnce :
    (t : Tunnel)
    → is_tls_termination t.tls_termination ≡ true
    → EndsOnce
        (ends_at_server (connection_for true t))
        (ends_at_client (serving_for t.tls_termination))
        t.tls_termination
connection_for-EndsOnce t h = elim (terminations t.tls_termination h) [
  | inl e ↦ rw e (refl, refl)
  | inr (inl e) ↦ rw e (refl, refl)
  | inr (inr (inl e)) ↦ rw e (refl, refl)
  | inr (inr (inr (inl e))) ↦ rw e (refl, refl)
  | inr (inr (inr (inr e))) ↦ rw e (refl, refl)
]

created-domain :
    (m : TunnelManager) (req t : Tunnel) (w w' : World) (r : Result Tunnel)
    → IsAtomic m req w w' r
    → r ≡ ok t
    → req.domain ≡ t.domain
created-domain m req t w w' _ (added u domain _ _ _ _ _ _ _) h =
    let same : u ≡ t = cc h in sym domain ∙ ap (λ (v : Tunnel). v.domain) same
created-domain m req t w w' _ (unchanged r never same) h = absurd (never t h)

-- A tunnel that the tunnel manager made gets its connections.
created-connection :
    (m : TunnelManager) (o : Outside) (req t : Tunnel) (w : World)
    → (request_create_tunnel m o req w).1 ≡ ok t
    → handle_connection t.domain (request_create_tunnel m o req w).0.db ≡ connection_for true t
created-connection m o req t w h =
    let domain =
      created-domain m req t w (request_create_tunnel m o req w).0
        (request_create_tunnel m o req w).1 (request_create_tunnel-IsAtomic m o req w) h in
    rw (handle_connection-after m o req w t t.domain h, domain, eq_refl t.domain) refl

-- A creation that the API lets through was asked for with one of the terminations.
requested-lets :
    (m : TunnelManager) (o : Outside) (token_data : TokenData) (params : Values) (w : World)
    (t : Tunnel) (r : Result Tunnel)
    → tunnel_request m.config token_data params w.db ≡ r
    → (requested m o w r).1 ≡ ok t
    → (is_tls_termination t.tls_termination ≡ true)
      × (handle_connection t.domain (requested m o w r).0.db ≡ connection_for true t)
requested-lets m o token_data params w t (ok req) h e = (
  rw (request_create_tunnel-tls m o req t w e)
      (tunnel_request-IsGranted m.config token_data params w.db req h).tls,
  created-connection m o req t w e,
)
requested-lets m o token_data params w t (err message) h e = absurd (cc e)
requested-lets m o token_data params w t panic h e = absurd (cc e)

bore_tunnel-serving :
    (ssh : Ssh) (t : Tunnel) (b : Bored)
    → bore_tunnel ssh t ≡ ok b
    → b.serving ≡ serving_for t.tls_termination
unfolding bore_tunnel
bore_tunnel-serving ssh t b h =
    let (_, _, dialled_in) =
      >>=-eq-ok (no_error _ (ssh.parse_private_key t.tunnel_private_key)) _ h in
    let (_, _, listening) = >>=-eq-ok (no_error _ (ssh.dial _ t.username)) _ dialled_in in
    let (_, _, served) = >>=-eq-ok (no_error _ (ssh.listen (tunnel_address t))) _ listening in
    cc served

-- When the API has created a tunnel and a client bores it, the TLS of connections for its domain is
-- ended by the server or by the client, never by both; and by neither exactly if the tunnel's TLS
-- termination is passthrough.
pub api_create_tunnel-EndsOnce :
    (m : TunnelManager) (o : Outside) (token_data : TokenData) (params : Values) (w : World)
    (t : Tunnel) (ssh : Ssh) (b : Bored)
    → (api_create_tunnel m o token_data params w).1 ≡ ok t
    → bore_tunnel ssh t ≡ ok b
    → EndsOnce
        (ends_at_server
          (handle_connection t.domain (api_create_tunnel m o token_data params w).0.db))
        (ends_at_client b.serving)
        t.tls_termination
unfolding api_create_tunnel
api_create_tunnel-EndsOnce m o token_data params w t ssh b h bored =
    let (valid, connection) = requested-lets m o token_data params w t _ refl h in
    rw (connection, bore_tunnel-serving ssh t b bored) (connection_for-EndsOnce t valid)
