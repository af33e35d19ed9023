-- ===== src/WebUi/Pending/Order.antt =====
-- The tunnels through any run.
use boringproxy.Prelude.{◌≡◌, refl, ◌==◌}
use boringproxy.Database.Store.{persist, delete_user}
use boringproxy.TunnelManager.Manager.{TunnelManager, World}
use boringproxy.TunnelManager.Invariant.{IsConsistent}
use boringproxy.Api.Soundness.Expulsion.{drop_if-rest}
use boringproxy.Api.Threads
use boringproxy.Api.Threads.{Threads, elsewhere, begin, list, turn, finish}
use boringproxy.Api.Threads.Growth.{perform-IsConsistent}
use boringproxy.Api.Threads.Requests.{Reaches, api_create_tunnel-Reaches}
use boringproxy.WebUi.Calls.{request-Reaches}
use boringproxy.WebUi.Reply.{Assets, answered, creating, loading, Handled}
use boringproxy.WebUi.Handler.{handle_web_ui_request}
use boringproxy.WebUi.Pending.{
  Ui, accept, Step, visit, call, method, removal, create, take, time_out, load, Run, here, next,
}

pub world-accept : (p : Handled) (s : Ui) → (accept p s).world ≡ p.0
unfolding accept
world-accept (w, answered reply) s = refl
world-accept (w, creating stale i t form reply) s = refl
world-accept (w, loading i reply) s = refl

calls-IsConsistent :
    {m : TunnelManager} {s t : Threads}
    → Threads.Step m s t
    → IsConsistent s.world.db.tunnels
    → IsConsistent t.world.db.tunnels
unfolding delete_user persist
calls-IsConsistent {m} {s} (Threads.call c) h = perform-IsConsistent m c s.world h
calls-IsConsistent (begin n name e) h = h
calls-IsConsistent (list n name e) h = h
calls-IsConsistent {m} {s} (turn n name token u rest e) h =
    rw (drop_if-rest (u.owner == name) token s.world.db).1 h
calls-IsConsistent (finish n name e) h = h

all_calls-IsConsistent :
    {m : TunnelManager} {s t : Threads}
    → Threads.Run m s t
    → IsConsistent s.world.db.tunnels
    → IsConsistent t.world.db.tunnels
all_calls-IsConsistent Threads.here h = h
all_calls-IsConsistent (Threads.next run step) h =
    calls-IsConsistent step (all_calls-IsConsistent run h)

abbrev quiet : World → Threads
quiet w = record { world = w; thread = λ n. elsewhere }

Reaches-IsConsistent :
    (m : TunnelManager) (w w' : World)
    → Reaches m (quiet w) 0 w'
    → IsConsistent w.db.tunnels
    → IsConsistent w'.db.tunnels
Reaches-IsConsistent m w w' (t, run, same, _) h = rw (← same) (all_calls-IsConsistent run h)

Step-IsConsistent :
    {a : Assets} {m : TunnelManager} {s t : Ui}
    → Step a m s t
    → IsConsistent s.world.db.tunnels
    → IsConsistent t.world.db.tunnels
unfolding delete_user persist
Step-IsConsistent {a} {m} {s} (visit o r) h =
    rw (world-accept (handle_web_ui_request a m o r s.world) s)
      (Reaches-IsConsistent m s.world _ (request-Reaches a m o r (quiet s.world) 0 refl).1 h)
Step-IsConsistent {a} {m} {s} (call o r) h =
    Reaches-IsConsistent m s.world _ (request-Reaches a m o r (quiet s.world) 0 refl).0 h
Step-IsConsistent {m} {s} (method c) h = perform-IsConsistent m c s.world h
Step-IsConsistent (removal name) h = h
Step-IsConsistent {m} {s} (create o c t form e n) h =
    Reaches-IsConsistent m s.world _ (api_create_tunnel-Reaches m (quiet s.world) 0 refl o t form) h
Step-IsConsistent (take n c stale i reply result e f) h = h
Step-IsConsistent (time_out n c stale i reply e) h = h
Step-IsConsistent (load n c reply result e f) h = h

pub Run-IsConsistent :
    {a : Assets} {m : TunnelManager} {s t : Ui}
    → Run a m s t
    → IsConsistent s.world.db.tunnels
    → IsConsistent t.world.db.tunnels
Run-IsConsistent here h = h
Run-IsConsistent (next run step) h = Step-IsConsistent step (Run-IsConsistent run h)
