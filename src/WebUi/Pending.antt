-- ===== src/WebUi/Pending.antt =====
-- The creations that the web interface runs in goroutines of their own, and the requests that wait for
-- them: handleCreateTunnel, handleLoading, and requests to the API, in any interleaving. Other requests may
-- be served in one step each, or come to the database call by call between these steps. A channel is a
-- number, and so is a request; `pendingRequests` holds the channels. What panics in a goroutine ends
-- the process: there is no step for it.
pub mod Order
pub mod Stuck
pub mod Later
pub mod Progress
pub mod Registry
pub mod Accounts
pub mod Refinement
use boringproxy.Prelude.{ℕ, suc, ◌≡◌, ◌≢◌, String, Bool, Option, none, some, update}
use boringproxy.Prelude.GoMap.{GoMap, lookup, insert, delete}
use boringproxy.Prelude.Result.{Result, ok, err, panic}
use boringproxy.Http.{Request, Values, Writer}
use boringproxy.Outside.{Outside}
use boringproxy.Database.Types.{TokenData, Tunnel}
use boringproxy.TunnelManager.Manager.{TunnelManager, World}
use boringproxy.Api.Tunnels.{api_create_tunnel}
use boringproxy.Api.Handlers.{serve_http}
use boringproxy.Database.Store.{delete_user}
use boringproxy.Api.Threads.{Call, perform, on_database}
use boringproxy.WebUi.Reply.{Assets, Outcome, answered, creating, loading, Handled}
use boringproxy.WebUi.Tunnels.{still_loading, finished}
use boringproxy.WebUi.Handler.{handle_web_ui_request}

-- The goroutine that sends on a channel: not started; before CreateTunnel; blocked in sending its
-- result; done.
pub data Job : Type 0 where
  unmade : Job
  running : TokenData → Values → Job
  blocked : Result Tunnel → Job
  received : Job

-- A request: not made; in the select of handleCreateTunnel; in the receive of handleLoading, on a
-- nil channel where the identifier was not found; answered.
pub data Wait : Type 0 where
  idle : Wait
  selecting : ℕ → Option String → String → Writer → Wait
  receiving : Option ℕ → Writer → Wait
  replied : Result Writer → Wait

pub record Ui : Type 0 where
  pub world : World
  pub pending : GoMap ℕ
  pub job : ℕ → Job
  pub made : ℕ
  pub wait : ℕ → Wait
  pub accepted : ℕ

abbrev pub asked : Ui → World → Wait → Ui
asked s w p = record s { world = w; wait = update s.wait s.accepted p; accepted = suc s.accepted }

-- A request behind its handler, up to the point where it waits.
unfoldable pub accept : Handled → Ui → Ui
unfolding lookup insert delete
accept (w, answered reply) s = asked s w (replied reply)
accept (w, creating stale pending_id t form reply) s =
    let waiting = asked s w (selecting s.made stale pending_id reply) in
    record waiting {
      pending = insert pending_id s.made s.pending;
      job = update s.job s.made (running t form);
      made = suc s.made;
    }
accept (w, loading pending_id reply) s =
    let waiting = asked s w (receiving (lookup pending_id s.pending) reply) in
    record waiting { pending = delete pending_id s.pending }

abbrev pub ran : Ui → ℕ → World → Result Tunnel → Ui
ran s c w result = record s { world = w; job = update s.job c (blocked result) }

abbrev pub delivered : Assets → Ui → ℕ → ℕ → Writer → Result Tunnel → Ui
delivered a s n c reply result = record s {
  job = update s.job c received;
  wait = update s.wait n (replied (finished a result reply));
}

abbrev pub timed_out : Assets → Ui → ℕ → Option String → String → Writer → Ui
timed_out a s n stale pending_id reply = record s {
  wait = update s.wait n (replied (ok (still_loading a stale pending_id reply)));
}

-- One step of the server.
pub data Step (a : Assets) (m : TunnelManager) (s : Ui) : Ui → Type 0 where
  -- a request to the web interface
  visit :
      (o : Outside) (r : Request) → Step a m s (accept (handle_web_ui_request a m o r s.world) s)
  -- a request to the API
  call :
      (o : Outside) (r : Request) → Step a m s (record s { world = (serve_http m o r s.world).0 })
  -- a call by which the handler of another request changes something, where that one is not served
  -- in one step: of Database or of the tunnel manager, with whatever arguments
  method : (c : Call) → Step a m s (record s { world = perform m c s.world })
  removal :
      (name : String)
      → Step a m s (record s { world = on_database s.world (delete_user name s.world.db) })
  -- a goroutine's call of CreateTunnel
  create :
      (o : Outside) (c : ℕ) (t : TokenData) (form : Values)
      → s.job c ≡ running t form
      → (api_create_tunnel m o t form s.world).1 ≢ panic
      → Step a m s (
          ran s c (api_create_tunnel m o t form s.world).0 (api_create_tunnel m o t form s.world).1)
  -- the select of handleCreateTunnel takes the result, or the time is out
  take :
      (n c : ℕ) (stale : Option String) (pending_id : String) (reply : Writer)
      (result : Result Tunnel)
      → s.wait n ≡ selecting c stale pending_id reply
      → s.job c ≡ blocked result
      → Step a m s (delivered a s n c reply result)
  time_out :
      (n c : ℕ) (stale : Option String) (pending_id : String) (reply : Writer)
      → s.wait n ≡ selecting c stale pending_id reply
      → Step a m s (timed_out a s n stale pending_id reply)
  -- handleLoading takes the result
  load :
      (n c : ℕ) (reply : Writer) (result : Result Tunnel)
      → s.wait n ≡ receiving (some c) reply
      → s.job c ≡ blocked result
      → Step a m s (delivered a s n c reply result)

pub data Run (a : Assets) (m : TunnelManager) (s : Ui) : Ui → Type 0 where
  here : Run a m s s
  next : {t u : Ui} → Run a m s t → Step a m t u → Run a m s u
