-- ===== src/WebUi/Pending/Progress.antt =====
-- A creation that takes longer than the select waits.
use boringproxy.Prelude.{ℕ, suc, ◌≡◌, refl, ap, ◌∙◌, ◌≢◌, String, Option, some, arith, eq_iff}
use boringproxy.Prelude.GoMap.{lookup, lookup-insert}
use boringproxy.Prelude.Result.{ok, panic}
use boringproxy.Http.{Request, Values, Writer}
use boringproxy.Outside.{Outside}
use boringproxy.Database.Types.{TokenData}
use boringproxy.TunnelManager.Manager.{TunnelManager, World}
use boringproxy.Api.Tunnels.{api_create_tunnel}
use boringproxy.WebUi.Reply.{Assets, creating, loading, Handled}
use boringproxy.WebUi.Tunnels.{still_loading, finished}
use boringproxy.WebUi.Handler.{handle_web_ui_request}
use boringproxy.WebUi.Pending.{
  running, blocked, selecting, receiving, replied, Ui, update, accept, ran, delivered, timed_out,
  Step, visit, create, time_out, load, Run, here, next,
}

visit_as :
    {a : Assets} {m : TunnelManager} {s : Ui} (o : Outside) (r : Request) (p : Handled)
    → handle_web_ui_request a m o r s.world ≡ p
    → Step a m s (accept p s)
visit_as {a} {m} {s} o r p h = rw (← h) (visit o r)

update_here {ℓ} : {A : Type ℓ} (f : ℕ → A) (i : ℕ) (x : A) → update f i x i ≡ x
update_here f i x = ground arith

update_there {ℓ} : {A : Type ℓ} (f : ℕ → A) (i j : ℕ) (x : A) → i ≢ j → update f i x j ≡ f j
update_there f i j x h = ground arith

posted_world :
    (s : Ui) (w : World) (stale : Option String) (i : String) (t : TokenData) (form : Values)
    (reply : Writer)
    → (accept (w, creating stale i t form reply) s).world ≡ w
unfolding accept
posted_world s w stale i t form reply = refl

module _ (a : Assets) (m : TunnelManager) (s : Ui) (w w' : World) (stale : Option String)
    (i : String) (t : TokenData) (form : Values) (reply reply' : Writer) where
  abbrev posted : Ui
  posted = accept (w, creating stale i t form reply) s

  abbrev slow : Ui
  slow = timed_out a posted s.accepted stale i reply

  abbrev asking : Ui
  asking = accept (w', loading i reply') slow

  posted-wait : posted.wait s.accepted ≡ selecting s.made stale i reply
  unfolding accept
  posted-wait = update_here s.wait s.accepted _

  slow-pending : lookup i slow.pending ≡ some s.made
  unfolding accept
  slow-pending = ground (arith, lookup-insert i i s.made s.pending, eq_iff i i)

  asking-wait : asking.wait (suc s.accepted) ≡ receiving (some s.made) reply'
  unfolding accept
  asking-wait = update_here slow.wait (suc s.accepted) _ ∙ ap (λ c. receiving c reply') slow-pending

  asking-answer : asking.wait s.accepted ≡ replied (ok (still_loading a stale i reply))
  unfolding accept
  asking-answer =
      update_there slow.wait (suc s.accepted) s.accepted _ (λ h. omega arith)
      ∙ update_here posted.wait s.accepted _

  asking-job : asking.job s.made ≡ running t form
  unfolding accept
  asking-job = update_here s.job s.made _

  asking-world : asking.world ≡ w'
  unfolding accept
  asking-world = refl

  module _ (o : Outside) (alive : (api_create_tunnel m o t form w').1 ≢ panic) where
    abbrev made_one : Ui
    made_one =
        ran asking s.made (api_create_tunnel m o t form w').0 (api_create_tunnel m o t form w').1

    abbrev served : Ui
    served = delivered a made_one (suc s.accepted) s.made reply' (api_create_tunnel m o t form w').1

    made_one-job : made_one.job s.made ≡ blocked (api_create_tunnel m o t form w').1
    made_one-job = update_here asking.job s.made _

    slow-Run : Step a m s posted → Run a m s slow
    slow-Run first = next (next here first) (time_out s.accepted s.made stale i reply posted-wait)

    creation : Step a m asking made_one
    unfolding accept
    creation = create o s.made t form asking-job alive

    served-Run : Step a m s posted → Step a m slow asking → Run a m s served
    served-Run first second = next (next (next (slow-Run first) second) creation) (
        load (suc s.accepted) s.made reply' (api_create_tunnel m o t form w').1 asking-wait
          made_one-job)

    served-wait :
        served.wait (suc s.accepted)
        ≡ replied (finished a (api_create_tunnel m o t form w').1 reply')
    served-wait = update_here asking.wait (suc s.accepted) _

    served-first : served.wait s.accepted ≡ replied (ok (still_loading a stale i reply))
    served-first =
        update_there asking.wait (suc s.accepted) s.accepted _ (λ h. omega arith) ∙ asking-answer

-- From every state, if a request starts a creation, one to /loading with its identifier comes
-- after, and CreateTunnel does not panic, the server can go on so that the first gets the loading
-- page, and the second gets the result of CreateTunnel, whose state is then the server's.
pub creating-finishes :
    (a : Assets) (m : TunnelManager) (o o' o'' : Outside) (r r' : Request) (s : Ui) (w w' : World)
    (stale : Option String) (i : String) (t : TokenData) (form : Values) (reply reply' : Writer)
    → handle_web_ui_request a m o r s.world ≡ (w, creating stale i t form reply)
    → handle_web_ui_request a m o' r' w ≡ (w', loading i reply')
    → (api_create_tunnel m o'' t form w').1 ≢ panic
    → (u : Ui) × Run a m s u
      × (u.wait s.accepted ≡ replied (ok (still_loading a stale i reply)))
      × (u.wait (suc s.accepted)
          ≡ replied (finished a (api_create_tunnel m o'' t form w').1 reply'))
      × (u.world ≡ (api_create_tunnel m o'' t form w').0)
creating-finishes a m o o' o'' r r' s w w' stale i t form reply reply' first second alive = (
  served a m s w w' stale i t form reply reply' o'' alive,
  served-Run a m s w w' stale i t form reply reply' o'' alive
      (visit_as o r (w, creating stale i t form reply) first)
      (visit_as o' r' (w', loading i reply')
        (ap (handle_web_ui_request a m o' r') (posted_world s w stale i t form reply) ∙ second)),
  served-first a m s w w' stale i t form reply reply' o'' alive,
  served-wait a m s w w' stale i t form reply reply' o'' alive,
  refl,
)
