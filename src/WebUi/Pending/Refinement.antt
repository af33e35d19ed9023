-- ===== src/WebUi/Pending/Refinement.antt =====
-- Every run of the server is one of the registry.
use boringproxy.Prelude.{refl}
use boringproxy.Http.{Request, parse_form}
use boringproxy.Outside.{Outside}
use boringproxy.TunnelManager.Manager.{TunnelManager, World}
use boringproxy.Api.Tokens.{api_create_token, api_delete_token}
use boringproxy.Api.Users.{api_create_user, api_delete_user}
use boringproxy.Api.Clients.{api_set_client, api_delete_client}
use boringproxy.TunnelManager.Invariant.{IsConsistent}
use boringproxy.Api.Handlers.{serve_http}
use boringproxy.Database.Store.{persist, delete_user}
use boringproxy.Api.Threads.{
  Call, admin_domain, new_token, drop_token, new_user, put_user, new_tunnel, drop_tunnel, perform,
}
use boringproxy.Api.Threads.Growth.{perform-Touches}
use boringproxy.Api.Rule.{serve_http-Keeps}
use boringproxy.WebUi.Reply.{Assets}
use boringproxy.WebUi.Handler.{handle_web_ui_request}
use boringproxy.WebUi.Rule.{handle_web_ui_request-Leads}
use boringproxy.WebUi.Pending.{
  Ui, Step, visit, call, method, removal, create, take, time_out, load, Run, here, next,
}
use boringproxy.WebUi.Pending.Order.{world-accept, Run-IsConsistent}
use boringproxy.WebUi.Pending.Registry.{
  registry, Move, stay, Moves, done, more, tunnels-Move, request_create_tunnel-Move,
  remove_tunnel-Move, api_create_tunnel-Move, api_delete_tunnel-Move,
}
use boringproxy.WebUi.Pending.Accounts.{
  api_create_token-tunnels, api_delete_token-tunnels, api_create_user-tunnels,
  api_delete_user-tunnels, api_set_client-tunnels, api_delete_client-tunnels,
}

module _ (m : TunnelManager) (o : Outside) (r : Request) (w : World)
    (c : IsConsistent w.db.tunnels) where
  abbrev Moved : World → Type 0
  Moved w' = Move (registry w.db) (registry w'.db)

  serve_http-Move : Moved (serve_http m o r w).0
  serve_http-Move = serve_http-Keeps Moved m o r w (record {
    start = stay (λ k. refl);
    create_tunnel = λ t _ _. api_create_tunnel-Move m o t (parse_form r) w c;
    delete_tunnel = λ t _ _. api_delete_tunnel-Move m o t (parse_form r) w c;
    create_user = λ t _ _.
        tunnels-Move w.db (api_create_user t (parse_form r) w.db).0
          (api_create_user-tunnels w.db t (parse_form r));
    create_token = λ t _ _.
        tunnels-Move w.db (api_create_token o.random t (parse_form r) w.db).0
          (api_create_token-tunnels w.db t (parse_form r) o.random);
    set_client = λ t user client _ _.
        tunnels-Move w.db (api_set_client t user client w.db).0
          (api_set_client-tunnels w.db t user client);
    delete_client = λ t user client _ _.
        tunnels-Move w.db (api_delete_client t user client w.db).0
          (api_delete_client-tunnels w.db t user client);
  })

  handle_web_ui_request-Move : (a : Assets) → Moved (handle_web_ui_request a m o r w).0
  handle_web_ui_request-Move a =
      (handle_web_ui_request-Leads Moved a m o r w (record {
        start = stay (λ k. refl);
        delete_tunnel = λ t _. api_delete_tunnel-Move m o t (parse_form r) w c;
        create_user = λ t _.
            tunnels-Move w.db (api_create_user t (parse_form r) w.db).0
              (api_create_user-tunnels w.db t (parse_form r));
        delete_user = λ t _.
            tunnels-Move w.db (api_delete_user t (parse_form r) w.db).0
              (api_delete_user-tunnels w.db t (parse_form r));
        create_token = λ t _.
            tunnels-Move w.db (api_create_token o.random t (parse_form r) w.db).0
              (api_create_token-tunnels w.db t (parse_form r) o.random);
        delete_token = λ t _.
            tunnels-Move w.db (api_delete_token t (parse_form r) w.db).0
              (api_delete_token-tunnels w.db t (parse_form r));
        set_client = λ t user client _.
            tunnels-Move w.db (api_set_client t user client w.db).0
              (api_set_client-tunnels w.db t user client);
        delete_client = λ t user client _.
            tunnels-Move w.db (api_delete_client t user client w.db).0
              (api_delete_client-tunnels w.db t user client);
      })).held

perform-Move :
    (m : TunnelManager) (c : Call) (w : World)
    → IsConsistent w.db.tunnels
    → Move (registry w.db) (registry (perform m c w).db)
unfolding perform
perform-Move m (new_tunnel o req) w c = request_create_tunnel-Move m o w req c
perform-Move m (drop_tunnel o domain) w c = remove_tunnel-Move m o w domain
perform-Move m (admin_domain domain) w c =
    tunnels-Move w.db (perform m (admin_domain domain) w).db
      (perform-Touches m (admin_domain domain) w)
perform-Move m (new_token rand owner client) w c =
    tunnels-Move w.db (perform m (new_token rand owner client) w).db
      (perform-Touches m (new_token rand owner client) w)
perform-Move m (drop_token token) w c =
    tunnels-Move w.db (perform m (drop_token token) w).db (perform-Touches m (drop_token token) w)
perform-Move m (new_user name admin) w c =
    tunnels-Move w.db (perform m (new_user name admin) w).db
      (perform-Touches m (new_user name admin) w)
perform-Move m (put_user name user) w c =
    tunnels-Move w.db (perform m (put_user name user) w).db
      (perform-Touches m (put_user name user) w)

Step-Move :
    {a : Assets} {m : TunnelManager} {s t : Ui}
    → Step a m s t
    → IsConsistent s.world.db.tunnels
    → Move (registry s.world.db) (registry t.world.db)
unfolding delete_user persist
Step-Move {a} {m} {s} (visit o r) c =
    rw (world-accept (handle_web_ui_request a m o r s.world) s)
      (handle_web_ui_request-Move m o r s.world c a)
Step-Move {m} {s} (call o r) c = serve_http-Move m o r s.world c
Step-Move {m} {s} (method made) c = perform-Move m made s.world c
Step-Move {m} {s} (removal name) c = stay (λ k. refl)
Step-Move {m} {s} (create o ch t form e n) c = api_create_tunnel-Move m o t form s.world c
Step-Move (take n ch stale i reply result e f) c = stay (λ k. refl)
Step-Move (time_out n ch stale i reply e) c = stay (λ k. refl)
Step-Move (load n ch reply result e f) c = stay (λ k. refl)

-- From a database where tunnels stand under their own domains with owners and distinct ports, every
-- run of the server, with requests to the web interface and the API, with calls of their handlers that
-- come one by one, and with creations, in any interleaving and whatever fails outside, is a run of the
-- abstract registry: each step leaves it, gives a free domain to an owner with a port that no other
-- domain has, or frees a domain.
pub Run-Moves :
    {a : Assets} {m : TunnelManager} {s t : Ui}
    → IsConsistent s.world.db.tunnels
    → Run a m s t
    → Moves (registry s.world.db) (registry t.world.db)
Run-Moves consistent here = done (λ k. refl)
Run-Moves consistent (next run step) =
    more (Run-Moves consistent run) (Step-Move step (Run-IsConsistent run consistent))
