-- ===== src/Api/Soundness/Requests.antt =====
-- Whole requests keep the invariant.
use boringproxy.Http.{Request, parse_form}
use boringproxy.Outside.{Outside}
use boringproxy.TunnelManager.Manager.{TunnelManager, World}
use boringproxy.Api.Handlers.{serve_http}
use boringproxy.Api.Rule.{serve_http-Keeps}
use boringproxy.Api.Soundness.{IsSound}
use boringproxy.Api.Soundness.Calls.{
  api_create_tunnel-IsSound, api_delete_tunnel-IsSound, api_create_token-IsSound,
  api_create_user-IsSound, api_set_client-IsSound, api_delete_client-IsSound,
}
use boringproxy.Prelude.{List, [], ◌∷◌}

-- Every API request, whoever sends it and whatever fails outside, keeps the tunnels under their own
-- domains with owners and distinct ports, and every token with a user that exists.
pub serve_http-IsSound :
    (m : TunnelManager) (o : Outside) (r : Request) (w : World)
    → IsSound w.db
    → IsSound (serve_http m o r w).0.db
serve_http-IsSound m o r w s =
    serve_http-Keeps (λ w'. IsSound w'.db) m o r w
      (record {
        start = s;
        create_tunnel = λ t c _. api_create_tunnel-IsSound m o t (parse_form r) w s;
        delete_tunnel = λ t c _. api_delete_tunnel-IsSound m o t (parse_form r) w s;
        create_user = λ t c _. api_create_user-IsSound t (parse_form r) w.db s;
        create_token = λ t c _. api_create_token-IsSound t (parse_form r) w.db s o.random;
        set_client = λ t user client c _. api_set_client-IsSound t user client w.db s;
        delete_client = λ t user client c _. api_delete_client-IsSound t user client w.db s;
      })

-- A run of the server: requests one after another, each with what the outside answers to it.
unfoldable pub serve_all : TunnelManager → List (Outside × Request) → World → World
serve_all m [] w = w
serve_all m ((o, r) ∷ rest) w = serve_all m rest (serve_http m o r w).0

-- From a database where every tunnel stands under its own domain with an owner, no port is in use
-- twice and every token belongs to a user that exists, any sequence of API requests, whoever sends
-- them and whatever fails outside, leads to such a database.
pub serve_all-IsSound :
    (m : TunnelManager) (requests : List (Outside × Request)) (w : World)
    → IsSound w.db
    → IsSound (serve_all m requests w).db
unfolding serve_all
serve_all-IsSound m [] w s = s
serve_all-IsSound m ((o, r) ∷ rest) w s =
    serve_all-IsSound m rest (serve_http m o r w).0 (serve_http-IsSound m o r w s)
