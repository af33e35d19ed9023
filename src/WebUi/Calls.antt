-- ===== src/WebUi/Calls.antt =====
-- Requests to the API and to the web interface as runs of the calls that their handlers make.
use boringproxy.Prelude.{ℕ, ◌≡◌}
use boringproxy.Http.{Request, parse_form}
use boringproxy.Outside.{Outside}
use boringproxy.TunnelManager.Manager.{TunnelManager}
use boringproxy.Api.Handlers.{serve_http}
use boringproxy.Api.Threads.{elsewhere, Threads}
use boringproxy.Api.Threads.Requests.{
  Reaches, nothing, api_delete_tunnel-Reaches, api_create_token-Reaches, api_delete_token-Reaches,
  api_create_user-Reaches, api_delete_user-Reaches, api_set_client-Reaches,
  api_delete_client-Reaches, serve_http-Reaches,
}
use boringproxy.WebUi.Reply.{Assets}
use boringproxy.WebUi.Handler.{handle_web_ui_request}
use boringproxy.WebUi.Rule.{handle_web_ui_request-Leads}

handle_web_ui_request-Reaches :
    (a : Assets) (m : TunnelManager) (o : Outside) (r : Request) (s : Threads) (n : ℕ)
    → s.thread n ≡ elsewhere
    → Reaches m s n (handle_web_ui_request a m o r s.world).0
handle_web_ui_request-Reaches a m o r s n e =
    (handle_web_ui_request-Leads (Reaches m s n) a m o r s.world (record {
      start = nothing m s n e;
      delete_tunnel = λ t c. api_delete_tunnel-Reaches m s n e o t (parse_form r);
      create_user = λ t c. api_create_user-Reaches m s n e t (parse_form r);
      delete_user = λ t c. api_delete_user-Reaches m s n e t (parse_form r);
      create_token = λ t c. api_create_token-Reaches m s n e o t (parse_form r);
      delete_token = λ t c. api_delete_token-Reaches m s n e t (parse_form r);
      set_client = λ t user client c. api_set_client-Reaches m s n e t user client;
      delete_client = λ t user client c. api_delete_client-Reaches m s n e t user client;
    })).held

pub request-Reaches :
    (a : Assets) (m : TunnelManager) (o : Outside) (r : Request) (s : Threads) (n : ℕ)
    → s.thread n ≡ elsewhere
    → Reaches m s n (serve_http m o r s.world).0
      × Reaches m s n (handle_web_ui_request a m o r s.world).0
request-Reaches a m o r s n e =
    (serve_http-Reaches m s n e o r, handle_web_ui_request-Reaches a m o r s n e)
