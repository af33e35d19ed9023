-- ===== src/WebUi/Pending/Later.antt =====
-- Whole runs: each creation goes on to its end once, and some requests never get an answer.
use boringproxy.Prelude.{ℕ, ◌≡◌, refl, sym, ap, ◌∙◌, ◌≢◌, String, ◌⊎◌, none, some, arith, inl, inr}
use boringproxy.Prelude.GoMap.{lookup}
use boringproxy.Prelude.Result.{Result}
use boringproxy.Http.{Writer}
use boringproxy.Database.Types.{Tunnel}
use boringproxy.TunnelManager.Manager.{TunnelManager, World}
use boringproxy.WebUi.Reply.{Assets, loading}
use boringproxy.WebUi.Handler.{handle_web_ui_request}
use boringproxy.WebUi.Pending.{
  Job, unmade, running, blocked, received, Wait, idle, selecting, receiving, Ui, accept, delivered,
  Step, visit, call, method, removal, create, take, time_out, load, Run, here, next,
}
use boringproxy.WebUi.Pending.Stuck.{
  IsFresh, IsSettled, nil_channel, no_sender, IsLater, IsSettled-later, IsSettled-selecting,
  IsSettled-receiving, changed-kept, accept-IsLater, moved-jobs, moved-rank, moved-waits,
}

-- A receiver takes a result.
delivered-IsLater :
    (a : Assets) (s : Ui) (n c : ℕ) (reply : Writer) (result : Result Tunnel) (w : Wait)
    → IsFresh s
    → s.wait n ≡ w
    → w ≢ idle
    → ((v : Wait) → IsSettled s v → v ≢ w)
    → s.job c ≡ blocked result
    → IsLater s (delivered a s n c reply result)
delivered-IsLater a s n c reply result w g e d apart f = record {
  fresh = record {
    jobs =
        moved-jobs s g c received
          (λ h. let clash : blocked result ≡ unmade = sym f ∙ h in cc clash);
    waits = moved-waits s g n _ (λ h. d (sym e ∙ h));
  };
  phases = moved-rank s g c received (rw f (omega arith));
  settled = λ i v h q. changed-kept s g n _ v i h (λ p. apart v q (p ∙ e));
}

Step-IsLater : {a : Assets} {m : TunnelManager} {s t : Ui} → Step a m s t → IsFresh s → IsLater s t
Step-IsLater {a} {m} {s} (visit o r) g = accept-IsLater s g (handle_web_ui_request a m o r s.world)
Step-IsLater (call o r) g = record {
  fresh = record { jobs = g.jobs; waits = g.waits };
  phases = λ c. omega arith;
  settled = λ n v e q. e;
}
Step-IsLater (method c) g = record {
  fresh = record { jobs = g.jobs; waits = g.waits };
  phases = λ c. omega arith;
  settled = λ n v e q. e;
}
Step-IsLater (removal name) g = record {
  fresh = record { jobs = g.jobs; waits = g.waits };
  phases = λ c. omega arith;
  settled = λ n v e q. e;
}
Step-IsLater {m} {s} (create o c t form e n) g = record {
  fresh = record {
    jobs = moved-jobs s g c _ (λ h. let clash : running t form ≡ unmade = sym e ∙ h in cc clash);
    waits = g.waits;
  };
  phases = moved-rank s g c _ (rw e (omega arith));
  settled = λ n v h q. h;
}
Step-IsLater {a} {s} (take n c stale i reply result e f) g =
    delivered-IsLater a s n c reply result (selecting c stale i reply) g e (λ h. cc h)
      (λ v q. IsSettled-selecting c stale i reply q) f
Step-IsLater {a} {s} (time_out n c stale i reply e) g = record {
  fresh = record {
    jobs = g.jobs;
    waits =
        moved-waits s g n _
          (λ h. let clash : selecting c stale i reply ≡ idle = sym e ∙ h in cc clash);
  };
  phases = λ d. omega arith;
  settled =
      λ k v h q. changed-kept s g n _ v k h (λ p. IsSettled-selecting c stale i reply q (p ∙ e));
}
Step-IsLater {a} {s} (load n c reply result e f) g =
    delivered-IsLater a s n c reply result (receiving (some c) reply) g e (λ h. cc h)
      (λ v q. IsSettled-receiving c reply result f q) f

-- Through any run of a state whose unused numbers are fresh, a creation only goes on, from not yet made
-- to running, to holding its result, to done; the unused numbers stay fresh; and a request that is
-- answered keeps its answer, while one that waits on a nil channel, or on one whose result was taken,
-- waits on.
pub Run-IsLater :
    {a : Assets} {m : TunnelManager} {s t : Ui} → Run a m s t → IsFresh s → IsLater s t
Run-IsLater here g = record { fresh = g; phases = λ c. omega arith; settled = λ n v e q. e }
Run-IsLater (next run step) g =
    let p = Run-IsLater run g in
    let q = Step-IsLater step p.fresh in
    record {
      fresh = q.fresh;
      phases = λ c. omega (arith, p.phases c, q.phases c);
      settled = λ n v e k. q.settled n v (p.settled n v e k) (IsSettled-later p k);
    }

-- The identifier is not pending, or its result was taken: handleCreateTunnel does that without
-- deleting the identifier.
abbrev pub IsOver : Ui → String → Type 0
IsOver s i =
    (lookup i s.pending ≡ none) ⊎ ((c : ℕ) × (lookup i s.pending ≡ some c) × (s.job c ≡ received))

waiting :
    (s : Ui) (w : World) (i : String) (reply : Writer)
    → (accept (w, loading i reply) s).wait s.accepted ≡ receiving (lookup i s.pending) reply
unfolding accept
waiting s w i reply = ground arith

job-accept :
    (s : Ui) (w : World) (i : String) (reply : Writer) → (accept (w, loading i reply) s).job ≡ s.job
unfolding accept
job-accept s w i reply = refl

over-IsSettled :
    (s : Ui) (w : World) (i : String) (reply : Writer)
    → IsOver s i
    → IsSettled (accept (w, loading i reply) s) (receiving (lookup i s.pending) reply)
over-IsSettled s w i reply (inl e) = rw e (nil_channel reply)
over-IsSettled s w i reply (inr (c, e, f)) =
    rw e (no_sender c reply (ap (λ (job : ℕ → Job). job c) (job-accept s w i reply) ∙ f))

-- A request to /loading for an identifier that is not pending, or whose result was taken, waits on the
-- channel that it found, or on none, in every state that any run reaches from there: it never gets an
-- answer.
pub loading_forever :
    {a : Assets} {m : TunnelManager} {t : Ui} (s : Ui) (w : World) (i : String) (reply : Writer)
    → IsFresh s
    → IsOver s i
    → Run a m (accept (w, loading i reply) s) t
    → t.wait s.accepted ≡ receiving (lookup i s.pending) reply
loading_forever s w i reply g over run =
    (Run-IsLater run (accept-IsLater s g (w, loading i reply)).fresh).settled s.accepted
      (receiving (lookup i s.pending) reply) (waiting s w i reply) (over-IsSettled s w i reply over)
