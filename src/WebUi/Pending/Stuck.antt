-- ===== src/WebUi/Pending/Stuck.antt =====
-- What no step undoes: the phases of a creation, the answers, and requests that wait for nothing.
use boringproxy.Prelude.{
  ℕ, suc, ◌≡◌, refl, sym, ap, ◌∙◌, ◌≢◌, ◌≤◌, String, Option, none, some, eqb, arith, Bool-cases,
  inl, inr,
}
use boringproxy.Prelude.GoMap.{lookup}
use boringproxy.Prelude.Result.{Result}
use boringproxy.Http.{Writer}
use boringproxy.Database.Types.{Tunnel}
use boringproxy.WebUi.Reply.{answered, creating, loading, Handled}
use boringproxy.WebUi.Pending.{
  Job, unmade, running, blocked, received, Wait, idle, selecting, receiving, replied, Ui, update,
  accept,
}

-- Channels and requests that were not made are in their first phase.
pub record IsFresh (s : Ui) : Type 0 where
  pub jobs : (c : ℕ) → s.made ≤ c → s.job c ≡ unmade
  pub waits : (n : ℕ) → s.accepted ≤ n → s.wait n ≡ idle

abbrev pub rank : Job → ℕ
rank unmade = 0
rank (running t form) = 1
rank (blocked result) = 2
rank received = 3

-- A request that is answered, or waits on a nil channel or on one that no goroutine will send on any
-- more.
pub data IsSettled (s : Ui) : Wait → Type 0 where
  answer_sent : (x : Result Writer) → IsSettled s (replied x)
  nil_channel : (reply : Writer) → IsSettled s (receiving none reply)
  no_sender : (c : ℕ) (reply : Writer) → s.job c ≡ received → IsSettled s (receiving (some c) reply)

pub record IsLater (s t : Ui) : Type 0 where
  pub fresh : IsFresh t
  pub phases : (c : ℕ) → rank (s.job c) ≤ rank (t.job c)
  pub settled : (n : ℕ) (v : Wait) → s.wait n ≡ v → IsSettled s v → t.wait n ≡ v

received_of_rank : (j : Job) → 3 ≤ rank j → j ≡ received
received_of_rank unmade h = absurd (omega arith)
received_of_rank (running t form) h = absurd (omega arith)
received_of_rank (blocked result) h = absurd (omega arith)
received_of_rank received h = refl

-- What is settled stays so.
pub IsSettled-later : {s t : Ui} {v : Wait} → IsLater s t → IsSettled s v → IsSettled t v
IsSettled-later l (answer_sent x) = answer_sent x
IsSettled-later l (nil_channel reply) = nil_channel reply
IsSettled-later {t} l (no_sender c reply e) =
    no_sender c reply (received_of_rank (t.job c) (ground (arith, l.phases c, e)))

IsSettled-idle : {s : Ui} {v : Wait} → IsSettled s v → v ≢ idle
IsSettled-idle (answer_sent x) h = cc
IsSettled-idle (nil_channel reply) h = cc
IsSettled-idle (no_sender c reply e) h = cc

pub IsSettled-selecting :
    {s : Ui} {v : Wait} (c : ℕ) (stale : Option String) (i : String) (reply : Writer)
    → IsSettled s v
    → v ≢ selecting c stale i reply
IsSettled-selecting c stale i reply (answer_sent x) h = cc
IsSettled-selecting c stale i reply (nil_channel _) h = cc
IsSettled-selecting c stale i reply (no_sender d _ e) h = cc

pub IsSettled-receiving :
    {s : Ui} {v : Wait} (c : ℕ) (reply : Writer) (result : Result Tunnel)
    → s.job c ≡ blocked result
    → IsSettled s v
    → v ≢ receiving (some c) reply
IsSettled-receiving c reply result f (answer_sent x) h = cc
IsSettled-receiving c reply result f (nil_channel _) h = cc
IsSettled-receiving {s} c reply result f (no_sender d other e) h =
    let same : d ≡ c = cc h in
    let clash : received ≡ blocked result = sym e ∙ ap s.job same ∙ f in cc clash

module _ (s : Ui) (g : IsFresh s) where
  asked-waits : (w : Wait) (n : ℕ) → suc s.accepted ≤ n → update s.wait s.accepted w n ≡ idle
  asked-waits w n h = ground (arith, g.waits n)

  -- A request that changes keeps what others have settled.
  pub changed-kept :
      (i : ℕ) (w v : Wait) (n : ℕ) → s.wait n ≡ v → v ≢ s.wait i → update s.wait i w n ≡ v
  changed-kept i w v n e d = elim (Bool-cases (eqb i n)) [
    | inl k ↦ absurd (d (sym e ∙ ap s.wait (ground arith)))
    | inr k ↦ rw k e
  ]

  asked-settled :
      (w v : Wait) (n : ℕ) → s.wait n ≡ v → IsSettled s v → update s.wait s.accepted w n ≡ v
  asked-settled w v n e q =
      changed-kept s.accepted w v n e (λ p. IsSettled-idle q (p ∙ g.waits s.accepted (omega arith)))

  made-jobs : (j : Job) (c : ℕ) → suc s.made ≤ c → update s.job s.made j c ≡ unmade
  made-jobs j c h = ground (arith, g.jobs c)

  made-rank : (j : Job) (c : ℕ) → rank (s.job c) ≤ rank (update s.job s.made j c)
  made-rank j c = elim (Bool-cases (eqb s.made c)) [
    | inl k ↦ rw (k, g.jobs c (ground arith)) (omega arith)
    | inr k ↦ rw k (omega arith)
  ]

  pub accept-IsLater : (p : Handled) → IsLater s (accept p s)
  unfolding accept
  accept-IsLater (w, answered reply) = record {
    fresh = record { jobs = g.jobs; waits = asked-waits (replied reply) };
    phases = λ c. omega arith;
    settled = λ n v e q. asked-settled (replied reply) v n e q;
  }
  accept-IsLater (w, creating stale i t form reply) = record {
    fresh = record {
      jobs = made-jobs (running t form);
      waits = asked-waits (selecting s.made stale i reply);
    };
    phases = made-rank (running t form);
    settled = λ n v e q. asked-settled (selecting s.made stale i reply) v n e q;
  }
  accept-IsLater (w, loading i reply) = record {
    fresh = record { jobs = g.jobs; waits = asked-waits (receiving (lookup i s.pending) reply) };
    phases = λ c. omega arith;
    settled = λ n v e q. asked-settled (receiving (lookup i s.pending) reply) v n e q;
  }

  -- A goroutine that goes on was made.
  pub moved-jobs :
      (c : ℕ) (j : Job) → s.job c ≢ unmade → (d : ℕ) → s.made ≤ d → update s.job c j d ≡ unmade
  moved-jobs c j n d h = elim (Bool-cases (eqb c d)) [
    | inl k ↦ absurd (n (g.jobs c (ground arith)))
    | inr k ↦ rw k (g.jobs d h)
  ]

  pub moved-rank :
      (c : ℕ) (j : Job)
      → rank (s.job c) ≤ rank j
      → (d : ℕ) → rank (s.job d) ≤ rank (update s.job c j d)
  moved-rank c j h d = elim (Bool-cases (eqb c d)) [
    | inl k ↦ let same : c ≡ d = ground arith in rw (k, ← same) h
    | inr k ↦ rw k (omega arith)
  ]

  -- So was a request that is answered.
  pub moved-waits :
      (i : ℕ) (w : Wait) → s.wait i ≢ idle → (n : ℕ) → s.accepted ≤ n → update s.wait i w n ≡ idle
  moved-waits i w d n h = elim (Bool-cases (eqb i n)) [
    | inl k ↦ absurd (d (g.waits i (ground arith)))
    | inr k ↦ rw k (g.waits n h)
  ]
