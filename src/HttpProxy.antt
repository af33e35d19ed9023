-- ===== src/HttpProxy.antt =====
-- http_proxy.go: one request passed on through a tunnel.
pub mod Forwarding
pub mod Answers
use boringproxy.Prelude.{
  ℕ, String, Bool, true, false, not, Option, none, some, List, [], ◌∷◌, ◌==◌, ◌!=◌, ◌||◌, ◌&&◌,
  if◌then◌else◌, ltb,
}
use boringproxy.Prelude.Int.{ℤ, itoa}
use boringproxy.Prelude.Text.{◌⧺◌}
use boringproxy.Prelude.GoMap.{lookup, insert, filter}
use boringproxy.Prelude.Result.{Result, ok, err, panic}
use boringproxy.Http.{
  Values, Content, plain, Writer, get, write, write_header, refuse, set_header, fresh_writer,
}
use boringproxy.Utils.{string_in_array}
use boringproxy.Database.Types.{Tunnel}

-- What proxyRequest reads of the downstream request.
pub record Downstream : Type 0 where
  pub method : String
  pub host : String
  pub request_uri : String
  pub headers : Values
  pub body : String
  pub content_length : ℤ
  pub has_tls : Bool
  pub proto_major : ℕ
  pub remote_addr : String
  -- r.BasicAuth()
  pub basic_auth : Option (String × String)

-- The request that is sent on.
pub record Upstream : Type 0 where
  pub method : String
  pub url : String
  pub host : String
  pub headers : Values
  pub body : String
  pub content_length : ℤ

pub record Response : Type 0 where
  pub status_code : ℕ
  pub headers : Values
  pub body : Content

-- What net, net/http and the other end answer: whether http.NewRequest takes a method and a URL, the
-- host of net.SplitHostPort, and httpClient.Do.
pub record Network : Type 0 where
  pub new_request : String → String → Option String
  pub split_host_port : String → Result String
  pub send : Upstream → Result Response

abbrev pub connection_headers : List String
connection_headers =
    "Connection" ∷ "Keep-Alive" ∷ "Proxy-Connection" ∷ "Transfer-Encoding" ∷ "Upgrade" ∷ []

-- stripConnectionHeaders
unfoldable pub strip_connection_headers : Values → Values
unfolding filter string_in_array
strip_connection_headers headers =
    filter (λ k v. not (string_in_array k connection_headers)) headers

-- The text of X-Forwarded-For. Under `if behindProxy` the source declares a second variable of the
-- same name, which ends with its block: that is `inner` here.
record ForwardedFor : Type 0 where
  outer : String
  inner : String

abbrev forwarded_for : Bool → Values → String → ForwardedFor
forwarded_for behind_proxy headers remote_host =
    let found = get "X-Forwarded-For" headers in
    record {
      outer = remote_host;
      inner = if behind_proxy && found != "" then found ⧺ ", " ⧺ remote_host else found;
    }

-- The headers of the request that is sent on.
unfoldable pub upstream_headers : Bool → Downstream → String → Values
unfolding get insert
upstream_headers behind_proxy r remote_host =
    let proto =
      insert "X-Forwarded-Proto" ((if r.has_tls then "https" else "http") ∷ []) r.headers in
    let hosts = insert "X-Forwarded-Host" (r.host ∷ []) proto in
    let fors =
      insert "X-Forwarded-For" ((forwarded_for behind_proxy hosts remote_host).outer ∷ []) hosts in
    insert "Forwarded" (("for=" ⧺ remote_host) ∷ []) fors

abbrev upstream_url : String → ℤ → Downstream → String
upstream_url address port r = "http://" ⧺ address ⧺ ":" ⧺ itoa port ⧺ r.request_uri

-- The password check: whether the request may pass.
unfoldable pub is_authorized : Tunnel → Option (String × String) → Bool
is_authorized tunnel none = not (tunnel.auth_username != "" || tunnel.auth_password != "")
is_authorized tunnel (some (username, password)) =
    not (tunnel.auth_username != "" || tunnel.auth_password != "")
    || not (username != tunnel.auth_username || password != tunnel.auth_password)

unfoldable pub unauthorized : Writer
unfolding set_header write_header
unauthorized = write_header 401 (set_header "WWW-Authenticate" ("Basic" ∷ []) fresh_writer)

-- `for k, v := range forwardHeaders { downstreamResHeaders[k] = v }`
unfoldable pub copy_headers : Values → Writer → Writer
unfolding set_header
copy_headers [] w = w
copy_headers ((k, v) ∷ headers) w = set_header k v (copy_headers headers w)

unfoldable pub answer : ℕ → Response → Writer
unfolding copy_headers strip_connection_headers write write_header
answer proto_major response =
    let forward_headers =
      if ltb 1 proto_major then strip_connection_headers response.headers else response.headers in
    write response.body
      (write_header response.status_code (copy_headers forward_headers fresh_writer))

-- The answer to what was sent, and what was sent.
abbrev replied : ℕ → Upstream → Result Response → Option Upstream × Result Writer
replied proto_major sent (ok response) = (some sent, ok (answer proto_major response))
replied proto_major sent (err e) = (some sent, ok (refuse 502 e fresh_writer))
replied proto_major sent panic = (some sent, panic)

abbrev send_on :
    Network
    → Tunnel
    → String
    → ℤ
    → Bool
    → Downstream
    → Result String
    → Option Upstream × Result Writer
send_on net tunnel address port behind_proxy r (ok remote_host) =
    let sent : Upstream = record {
      method = r.method;
      url = upstream_url address port r;
      host = tunnel.domain;
      headers = upstream_headers behind_proxy r remote_host;
      body = r.body;
      content_length = r.content_length;
    } in
    replied r.proto_major sent (net.send sent)
send_on net tunnel address port behind_proxy r (err e) = (none, ok (refuse 500 e fresh_writer))
send_on net tunnel address port behind_proxy r panic = (none, panic)

abbrev checked :
    Network
    → Tunnel
    → String
    → ℤ
    → Bool
    → Downstream
    → Option String
    → Option Upstream × Result Writer
checked net tunnel address port behind_proxy r none =
    send_on net tunnel address port behind_proxy r (net.split_host_port r.remote_addr)
checked net tunnel address port behind_proxy r (some e) = (none, ok (refuse 500 e fresh_writer))

-- proxyRequest: the request that it sends on, if any, and the answer
unfoldable pub proxy_request :
    Network → Tunnel → String → ℤ → Bool → Downstream → Option Upstream × Result Writer
unfolding is_authorized unauthorized upstream_headers answer
proxy_request net tunnel address port behind_proxy r =
    if is_authorized tunnel r.basic_auth
    then checked net tunnel address port behind_proxy r
        (net.new_request r.method (upstream_url address port r))
    else (none, ok unauthorized)
