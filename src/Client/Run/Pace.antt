-- ===== src/Client/Run/Pace.antt =====
-- How often a client polls.
use boringproxy.Prelude.{ℕ, zero, suc, ◌+◌, ◌*◌, ◌%◌, ◌≡◌, refl, sym, ap, ◌∙◌, ◌≤◌, arith}
use boringproxy.Prelude.Int.{ℤ, pos, negsuc}
use boringproxy.Client.{Client}
use boringproxy.Client.Run.{
  ClientConfig, delay, Main, polling, waiting, returned, Ticker, off, asleep, ticking, Loop,
  ticker_for, started_loop, millis, word, Step, poll, wake, tick, done, pass, Steps, here, next,
}

-- Nanoseconds in 100 ms
abbrev pub gap : ℕ
gap = 100000000

-- The polls that are behind, or just before, the state, and how far time has come.
abbrev IsPaced : Main → Ticker → ℕ → ℕ → Type 0
IsPaced polling off now polls = polls ≡ 0
IsPaced waiting off now polls = polls ≤ 1
IsPaced returned off now polls = polls ≤ 1
IsPaced polling (asleep since) now polls = (polls * gap ≤ since) × (since ≤ now)
IsPaced waiting (asleep since) now polls = (polls * gap ≤ gap + since) × (since ≤ now)
IsPaced returned (asleep since) now polls = (polls * gap ≤ gap + since) × (since ≤ now)
IsPaced polling ticking now polls = polls * gap + gap ≤ now
IsPaced waiting ticking now polls = polls * gap ≤ now
IsPaced returned ticking now polls = polls * gap ≤ now

poll-IsPaced :
    (t : Ticker) (now polls : ℕ) → IsPaced polling t now polls → IsPaced waiting t now (suc polls)
poll-IsPaced off now polls h = omega (arith, h)
poll-IsPaced (asleep since) now polls (h, k) = (omega (arith, h), k)
poll-IsPaced ticking now polls h = omega (arith, h)

wake-IsPaced :
    (m : Main) (now polls since d : ℕ)
    → gap ≤ d
    → since + d ≤ now
    → IsPaced m (asleep since) now polls
    → IsPaced m ticking now polls
wake-IsPaced polling now polls since d g w (h, k) = omega (arith, g, w, h)
wake-IsPaced waiting now polls since d g w (h, k) = omega (arith, g, w, h)
wake-IsPaced returned now polls since d g w (h, k) = omega (arith, g, w, h)

done-IsPaced :
    (t : Ticker) (now polls : ℕ) → IsPaced waiting t now polls → IsPaced returned t now polls
done-IsPaced off now polls h = h
done-IsPaced (asleep since) now polls h = h
done-IsPaced ticking now polls h = h

pass-IsPaced :
    (m : Main) (t : Ticker) (now polls ns : ℕ)
    → IsPaced m t now polls
    → IsPaced m t (now + ns) polls
pass-IsPaced polling off now polls ns h = h
pass-IsPaced waiting off now polls ns h = h
pass-IsPaced returned off now polls ns h = h
pass-IsPaced polling (asleep since) now polls ns (h, k) = (h, omega (arith, k))
pass-IsPaced waiting (asleep since) now polls ns (h, k) = (h, omega (arith, k))
pass-IsPaced returned (asleep since) now polls ns (h, k) = (h, omega (arith, k))
pass-IsPaced polling ticking now polls ns h = omega (arith, h)
pass-IsPaced waiting ticking now polls ns h = omega (arith, h)
pass-IsPaced returned ticking now polls ns h = omega (arith, h)

Step-IsPaced :
    (config : ClientConfig) (s t : Loop)
    → gap ≤ delay (millis config.poll_interval)
    → Step config s t
    → IsPaced s.main s.ticker s.now s.polls
    → IsPaced t.main t.ticker t.now t.polls
Step-IsPaced config s _ g (poll reply c e f) h = poll-IsPaced s.ticker s.now s.polls (rw e at h)
Step-IsPaced config s _ g (wake since e w) h =
    wake-IsPaced s.main s.now s.polls since (delay (millis config.poll_interval)) g w (rw e at h)
Step-IsPaced config s _ g (tick e f) h = let p = rw (e, f) at h in (p, omega arith)
Step-IsPaced config s _ g (done e) h = done-IsPaced s.ticker s.now s.polls (rw e at h)
Step-IsPaced config s _ g (pass ns) h = pass-IsPaced s.main s.ticker s.now s.polls ns h

-- No wrap-around up to 9223372036854 ms.
pub delay-gap : (ms : ℕ) → 100 ≤ ms → ms ≤ 9223372036854 → gap ≤ delay ms
unfolding delay
delay-gap ms h k =
    let small : ms * 1000000 % word ≡ ms * 1000000 = omega arith in rw small (ground (arith, h, k))

start-IsPaced : (i : ℤ) → IsPaced polling (ticker_for i) 0 0
start-IsPaced (pos zero) = refl
start-IsPaced (pos (suc n)) = (omega arith, omega arith)
start-IsPaced (negsuc n) = refl

Steps-IsPaced :
    (config : ClientConfig) (c : Client) (s : Loop)
    → gap ≤ delay (millis config.poll_interval)
    → Steps config (started_loop config c) s
    → IsPaced s.main s.ticker s.now s.polls
Steps-IsPaced config c _ g here = start-IsPaced config.poll_interval
Steps-IsPaced config c _ g (next {t} {u} run step) =
    Step-IsPaced config t u g step (Steps-IsPaced config c t g run)

IsPaced-polls :
    (m : Main) (t : Ticker) (now polls : ℕ) → IsPaced m t now polls → polls * gap ≤ gap + now
IsPaced-polls polling off now polls h = omega (arith, h)
IsPaced-polls waiting off now polls h = omega (arith, h)
IsPaced-polls returned off now polls h = omega (arith, h)
IsPaced-polls polling (asleep since) now polls (h, k) = omega (arith, h, k)
IsPaced-polls waiting (asleep since) now polls (h, k) = omega (arith, h, k)
IsPaced-polls returned (asleep since) now polls (h, k) = omega (arith, h, k)
IsPaced-polls polling ticking now polls h = omega (arith, h)
IsPaced-polls waiting ticking now polls h = omega (arith, h)
IsPaced-polls returned ticking now polls h = omega (arith, h)

pub Steps-polls :
    (config : ClientConfig) (c : Client) (s : Loop)
    → gap ≤ delay (millis config.poll_interval)
    → Steps config (started_loop config c) s
    → s.polls * gap ≤ gap + s.now
Steps-polls config c s g run =
    IsPaced-polls s.main s.ticker s.now s.polls (Steps-IsPaced config c s g run)

-- Without a ticker there is one poll.
abbrev IsLone : Loop → Type 0
IsLone s = (s.ticker ≡ off) × IsPaced s.main off s.now s.polls

Step-IsLone : (config : ClientConfig) (s t : Loop) → Step config s t → IsLone s → IsLone t
Step-IsLone config s _ (poll reply c e f) (k, h) = (k, poll-IsPaced off s.now s.polls (rw e at h))
Step-IsLone config s _ (wake since e w) (k, h) =
    let clash : asleep since ≡ off = sym e ∙ k in absurd (cc clash)
Step-IsLone config s _ (tick e f) (k, h) =
    let clash : ticking ≡ off = sym f ∙ k in absurd (cc clash)
Step-IsLone config s _ (done e) (k, h) = (k, done-IsPaced off s.now s.polls (rw e at h))
Step-IsLone config s _ (pass ns) (k, h) = (k, pass-IsPaced s.main off s.now s.polls ns h)

Steps-IsLone :
    (config : ClientConfig) (c : Client) (s : Loop)
    → config.poll_interval ≡ pos 0
    → Steps config (started_loop config c) s
    → IsLone s
Steps-IsLone config c _ e here = (ap ticker_for e, refl)
Steps-IsLone config c _ e (next {t} {u} run step) =
    Step-IsLone config t u step (Steps-IsLone config c t e run)

IsPaced-once : (m : Main) (now polls : ℕ) → IsPaced m off now polls → polls ≤ 1
IsPaced-once polling now polls h = omega (arith, h)
IsPaced-once waiting now polls h = h
IsPaced-once returned now polls h = h

pub Steps-once :
    (config : ClientConfig) (c : Client) (s : Loop)
    → config.poll_interval ≡ pos 0
    → Steps config (started_loop config c) s
    → s.polls ≤ 1
Steps-once config c s e run = IsPaced-once s.main s.now s.polls (Steps-IsLone config c s e run).1
