-- ===== src/Server/Listen.antt =====
-- boringproxy.go: the handler of Listen, which serves every HTTP request.
pub mod Guard
use boringproxy.Prelude.{String, Bool, Option, none, some, [], ◌∷◌}
use boringproxy.Prelude.Text.{◌⧺◌, trim_prefix}
use boringproxy.Prelude.Int.{ℤ, itoa}
use boringproxy.Prelude.GoMap.{GoMap}
use boringproxy.Prelude.Result.{Result, ok, err, panic}
use boringproxy.Http.{Request, Writer, fresh_writer, refuse, write_header, set_header}
use boringproxy.Outside.{Outside}
use boringproxy.TunnelManager.Manager.{TunnelManager, World}
use boringproxy.Api.Handlers.{serve_http}
use boringproxy.HttpProxy.{Downstream, Upstream, Network, proxy_request}
use boringproxy.WebUi.Reply.{Outcome}
use boringproxy.WebUi.Reply.{Assets}
use boringproxy.WebUi.Handler.{handle_web_ui_request}
use boringproxy.Server.{
  HttpRoute, bad_address, callback, to_api, to_web_ui, to_tunnel, no_tunnel, route,
}
use boringproxy.Server.Callback.{Namedrop, CallbackReply, sent, namedrop_callback}

-- redirectTLS, of the plain HTTP listener without -allow-http
unfoldable pub redirect_tls : ℤ → String → String → Writer
unfolding itoa write_header set_header
redirect_tls https_port host request_uri = write_header 301 (
    set_header "Location" (("https://" ⧺ host ⧺ ":" ⧺ itoa https_port ⧺ request_uri) ∷ [])
      fresh_writer)

-- A request, as the handlers and as proxyRequest read it.
pub record Incoming : Type 0 where
  pub request : Request
  pub downstream : Downstream

-- What becomes of a request: a reply, the outcome of the web interface, or what is sent through a
-- tunnel, if anything, with the answer.
pub data Handling : Type 0 where
  direct : CallbackReply → Handling
  by_web_ui : Outcome → Handling
  forwarded : Option Upstream → Result Writer → Handling

-- http.StripPrefix("/api", api), for a path under /api/
abbrev pub stripped : Request → Request
stripped r = record r { path = trim_prefix r.path "/api" }

-- The packages that the handler works with, and the flag behindProxy.
pub record Parts (Dns : Type 0) : Type 0 where
  pub namedrop : Namedrop Dns
  pub assets : Assets
  pub network : Network
  pub behind_proxy : Bool

module _ {Dns : Type 0} (parts : Parts Dns) (m : TunnelManager) (o : Outside) (r : Incoming)
    (w : World) (dns : GoMap Dns) where
  abbrev pub kept : World × Result Writer → (World × GoMap Dns) × Handling
  kept (w', reply) = ((w', dns), direct (sent reply))

  abbrev pub shown : World × Outcome → (World × GoMap Dns) × Handling
  shown (w', outcome) = ((w', dns), by_web_ui outcome)

  abbrev pub called : (World × GoMap Dns) × CallbackReply → (World × GoMap Dns) × Handling
  called (state, reply) = (state, direct reply)

  abbrev pub passed_on : Option Upstream × Result Writer → (World × GoMap Dns) × Handling
  passed_on (upstream, reply) = ((w, dns), forwarded upstream reply)

  abbrev pub by_route : Result HttpRoute → (World × GoMap Dns) × Handling
  by_route (ok (bad_address e)) = kept (w, ok (refuse 500 e fresh_writer))
  by_route (ok callback) = called (namedrop_callback parts.namedrop m o r.request (w, dns))
  by_route (ok to_api) = kept (serve_http m o (stripped r.request) w)
  by_route (ok to_web_ui) = shown (handle_web_ui_request parts.assets m o r.request w)
  by_route (ok (to_tunnel tunnel)) = passed_on (
      proxy_request parts.network tunnel "localhost" tunnel.tunnel_port parts.behind_proxy
        r.downstream)
  by_route (ok (no_tunnel message)) = kept (w, ok (refuse 500 message fresh_writer))
  by_route (err e) = kept (w, err e)
  by_route panic = kept (w, panic)

  -- The handler of "/"
  unfoldable pub serve : (World × GoMap Dns) × Handling
  unfolding route namedrop_callback serve_http handle_web_ui_request proxy_request refuse
      trim_prefix
  serve = by_route (route (parts.network.split_host_port r.request.remote_addr) r.request w.db)
