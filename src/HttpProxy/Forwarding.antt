-- ===== src/HttpProxy/Forwarding.antt =====
-- What proxyRequest sends on.
use boringproxy.Prelude.{
  ℕ, ◌≡◌, refl, ◌≢◌, ◌⊎◌, inl, inr, String, Bool, true, Option, none, some, List, [], ◌∷◌, ◌==◌,
  if◌then◌else◌, arith, eq_iff, Bool-cases,
}
use boringproxy.Prelude.Int.{ℤ, itoa}
use boringproxy.Prelude.Text.{◌⧺◌}
use boringproxy.Prelude.GoMap.{lookup, insert, lookup-insert}
use boringproxy.Prelude.Result.{Result, ok, err, panic}
use boringproxy.Database.Types.{Tunnel}
use boringproxy.HttpProxy.{
  Downstream, Upstream, Response, Network, upstream_headers, is_authorized, proxy_request, send_on,
  checked, replied, upstream_url,
}

-- A request passes the check exactly if the tunnel has no password protection or its credentials are
-- the tunnel's.
is_authorized-true :
    (tunnel : Tunnel) (auth : Option (String × String))
    → is_authorized tunnel auth ≡ true
    → ((tunnel.auth_username ≡ "") × (tunnel.auth_password ≡ ""))
      ⊎ (auth ≡ some (tunnel.auth_username, tunnel.auth_password))
unfolding is_authorized
is_authorized-true tunnel none h =
    ground (arith, eq_iff tunnel.auth_username "", eq_iff tunnel.auth_password "")
is_authorized-true tunnel (some (username, password)) h = ground (
  arith,
  eq_iff tunnel.auth_username "",
  eq_iff tunnel.auth_password "",
  eq_iff username tunnel.auth_username,
  eq_iff password tunnel.auth_password,
)

pub record IsForwarded (tunnel : Tunnel) (address : String) (port : ℤ) (r : Downstream)
    (remote_host : String) (sent : Upstream) : Type 0 where
  pub method : sent.method ≡ r.method
  pub host : sent.host ≡ tunnel.domain
  pub url : sent.url ≡ "http://" ⧺ address ⧺ ":" ⧺ itoa port ⧺ r.request_uri
  pub body : sent.body ≡ r.body
  pub length : sent.content_length ≡ r.content_length
  -- other headers pass as they are
  pub others :
      (k : String)
      → k ≢ "X-Forwarded-Proto"
      → k ≢ "X-Forwarded-Host"
      → k ≢ "X-Forwarded-For"
      → k ≢ "Forwarded"
      → lookup k sent.headers ≡ lookup k r.headers
  pub proto :
      lookup "X-Forwarded-Proto" sent.headers ≡ some ((if r.has_tls then "https" else "http") ∷ [])
  pub forwarded_host : lookup "X-Forwarded-Host" sent.headers ≡ some (r.host ∷ [])
  pub forwarded_for : lookup "X-Forwarded-For" sent.headers ≡ some (remote_host ∷ [])
  pub forwarded : lookup "Forwarded" sent.headers ≡ some (("for=" ⧺ remote_host) ∷ [])

lookup-upstream_headers :
    (behind_proxy : Bool) (r : Downstream) (remote_host k : String)
    → lookup k (upstream_headers behind_proxy r remote_host) ≡ (
        if "Forwarded" == k
        then some (("for=" ⧺ remote_host) ∷ [])
        else if "X-Forwarded-For" == k
        then some (remote_host ∷ [])
        else if "X-Forwarded-Host" == k
        then some (r.host ∷ [])
        else if "X-Forwarded-Proto" == k
        then some ((if r.has_tls then "https" else "http") ∷ [])
        else lookup k r.headers)
unfolding upstream_headers
lookup-upstream_headers behind_proxy r remote_host k =
    let p : List String = (if r.has_tls then "https" else "http") ∷ [] in
    let h₁ = insert "X-Forwarded-Proto" p r.headers in
    let h₂ = insert "X-Forwarded-Host" (r.host ∷ []) h₁ in
    let h₃ = insert "X-Forwarded-For" (remote_host ∷ []) h₂ in
    rw
      (
        lookup-insert "Forwarded" k (("for=" ⧺ remote_host) ∷ []) h₃,
        lookup-insert "X-Forwarded-For" k (remote_host ∷ []) h₂,
        lookup-insert "X-Forwarded-Host" k (r.host ∷ []) h₁,
        lookup-insert "X-Forwarded-Proto" k p r.headers,
      )
      refl

-- The tunnel has no password, or the request carries the tunnel's.
abbrev pub MayPass : Tunnel → Downstream → Type 0
MayPass tunnel r =
    ((tunnel.auth_username ≡ "") × (tunnel.auth_password ≡ ""))
    ⊎ (r.basic_auth ≡ some (tunnel.auth_username, tunnel.auth_password))

module _ (net : Network) (tunnel : Tunnel) (address : String) (port : ℤ) (behind_proxy : Bool)
    (r : Downstream) where
  replied-sent :
      (proto_major : ℕ) (sent u : Upstream) (reply : Result Response)
      → (replied proto_major sent reply).0 ≡ some u
      → u ≡ sent
  replied-sent proto_major sent u (ok response) h = cc
  replied-sent proto_major sent u (err e) h = cc
  replied-sent proto_major sent u panic h = cc

  abbrev forwarded : String → Upstream
  forwarded remote_host = record {
    method = r.method;
    url = upstream_url address port r;
    host = tunnel.domain;
    headers = upstream_headers behind_proxy r remote_host;
    body = r.body;
    content_length = r.content_length;
  }

  forwarded-IsForwarded :
      (remote_host : String) → IsForwarded tunnel address port r remote_host (forwarded remote_host)
  forwarded-IsForwarded remote_host = record {
    method = refl;
    host = refl;
    url = refl;
    body = refl;
    length = refl;
    others = λ k a b c d. ground (
      arith,
      lookup-upstream_headers behind_proxy r remote_host k,
      eq_iff "Forwarded" k,
      eq_iff "X-Forwarded-For" k,
      eq_iff "X-Forwarded-Host" k,
      eq_iff "X-Forwarded-Proto" k,
    );
    proto = lookup-upstream_headers behind_proxy r remote_host "X-Forwarded-Proto";
    forwarded_host = lookup-upstream_headers behind_proxy r remote_host "X-Forwarded-Host";
    forwarded_for = lookup-upstream_headers behind_proxy r remote_host "X-Forwarded-For";
    forwarded = lookup-upstream_headers behind_proxy r remote_host "Forwarded";
  }

  abbrev Sent : Upstream → Type 0
  Sent u =
      (remote_host : String) × (net.split_host_port r.remote_addr ≡ ok remote_host)
      × IsForwarded tunnel address port r remote_host u

  send_on-Sent :
      (u : Upstream) (host : Result String)
      → net.split_host_port r.remote_addr ≡ host
      → (send_on net tunnel address port behind_proxy r host).0 ≡ some u
      → Sent u
  send_on-Sent u (ok remote_host) e h = (
    remote_host,
    e,
    rw (replied-sent r.proto_major (forwarded remote_host) u (net.send (forwarded remote_host)) h)
        (forwarded-IsForwarded remote_host),
  )
  send_on-Sent u (err m) e h = cc
  send_on-Sent u panic e h = cc

  checked-Sent :
      (u : Upstream) (refusal : Option String)
      → (checked net tunnel address port behind_proxy r refusal).0 ≡ some u
      → Sent u
  checked-Sent u none h = send_on-Sent u (net.split_host_port r.remote_addr) refl h
  checked-Sent u (some e) h = cc

  -- Whatever the network does, a request is sent on only if the tunnel has no password or the request
  -- carries the tunnel's; it keeps method, URI, body and length, is for the tunnel's domain, tells the
  -- scheme, the host and the sender's address in its forwarding headers, which replace those that
  -- the sender wrote, and has all other headers as they were.
  pub proxy_request-IsForwarded :
      (sent : Upstream)
      → (proxy_request net tunnel address port behind_proxy r).0 ≡ some sent
      → MayPass tunnel r
        × (remote_host : String) × (net.split_host_port r.remote_addr ≡ ok remote_host)
        × IsForwarded tunnel address port r remote_host sent
  unfolding proxy_request
  proxy_request-IsForwarded sent h = elim (Bool-cases (is_authorized tunnel r.basic_auth)) [
    | inl e ↦
        let (a, b, c) = checked-Sent sent _ (rw e at h) in
        (is_authorized-true tunnel r.basic_auth e, a, b, c)
    | inr e ↦ let none_sent : none ≡ some sent = rw e at h in cc none_sent
  ]
