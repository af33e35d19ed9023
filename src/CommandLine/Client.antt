-- ===== src/CommandLine/Client.antt =====
-- What the flags of `client` promise.
use boringproxy.Prelude.{
  zero, suc, ◌+◌, ◌*◌, ◌≡◌, refl, ◌≢◌, ◌≤◌, ◌⊎◌, inl, inr, String, Bool, true, false, none, some,
  List, [], ◌∷◌, ◌==◌, Bool-cases, ne_of_test, if◌then◌else◌, arith, ◌||◌,
}
use boringproxy.Prelude.Int.{ℤ, pos, negsuc, eq_ℤ}
use boringproxy.Prelude.Text.{◌⧺◌}
use boringproxy.Client.{Client}
use boringproxy.Client.Run.{ClientConfig, Loop, millis, started_loop, Steps}
use boringproxy.Client.Run.Pace.{gap, delay-gap, Steps-polls, Steps-once}
use boringproxy.CommandLine.{
  Parsed, flags, ended, FlagSets, prints, fails, pipes, listens, serves, connects, is_too_often,
  client_command, run_client, run_tuntls, command, usage, main,
}

-- A configuration that the command line lets through.
pub record IsAccepted (c : ClientConfig) : Type 0 where
  pub server : c.server_addr ≢ ""
  pub token : c.token ≢ ""
  pub interval : (c.poll_interval ≡ pos 0) ⊎ (100 ≤ millis c.poll_interval)

not_often : (i : ℤ) → is_too_often i ≡ false → (i ≡ pos 0) ⊎ (100 ≤ millis i)
not_often (pos zero) h = inl refl
not_often (pos (suc n)) h = inr (ground (arith, h))
not_often (negsuc n) h = absurd (cc h)

client_command-IsAccepted : (f c : ClientConfig) → client_command f ≡ connects c → IsAccepted c
unfolding client_command
client_command-IsAccepted f c h = elim (Bool-cases (f.server_addr == "")) [
  | inl e ↦ let clash = rw e at h in absurd (cc clash)
  | inr e ↦ elim (Bool-cases (f.token == "")) [
    | inl g ↦ let clash = rw (e, g) at h in absurd (cc clash)
    | inr g ↦ elim (Bool-cases (is_too_often f.poll_interval)) [
      | inl k ↦ let clash = rw (e, g, k) at h in absurd (cc clash)
      | inr k ↦
          let kept = rw (e, g, k) at h in
          let same : f ≡ c = cc kept in
          rw⁻¹ same (record {
            server = ne_of_test f.server_addr "" e;
            token = ne_of_test f.token "" g;
            interval = not_often f.poll_interval k;
          })
    ]
  ]
]

-- The other branch of an if whose first branch is excluded.
else_of : {A : Type 0} (b : Bool) (x y z : A) → x ≢ z → (if b then x else y) ≡ z → y ≡ z
else_of true x y z n h = absurd (n h)
else_of false x y z n h = h

either_of : {A : Type 0} (b : Bool) (x y z : A) → (if b then x else y) ≡ z → (x ≡ z) ⊎ (y ≡ z)
either_of true x y z h = inl h
either_of false x y z h = inr h

run_client-IsAccepted :
    (p : Parsed ClientConfig) (c : ClientConfig) → run_client p ≡ connects c → IsAccepted c
run_client-IsAccepted (ended status) c h = absurd (cc h)
run_client-IsAccepted (flags e f) c h = client_command-IsAccepted f c h

run_tuntls-connects :
    (program : String) (p : Parsed (String × ℤ)) (c : ClientConfig)
    → run_tuntls program p ≢ connects c
run_tuntls-connects program (ended status) c h = cc h
run_tuntls-connects program (flags (some e) f) c h = cc h
run_tuntls-connects program (flags none (server, port)) c h =
    let inner =
      else_of (server == "") (fails "server argument is required") _ (connects c) (λ k. cc k) h in
    elim (either_of (eq_ℤ port (pos 0)) (pipes server) (listens server port) (connects c) inner) [
      | inl k ↦ cc k
      | inr k ↦ cc k
    ]

command-IsAccepted :
    (sets : FlagSets) (version program name : String) (rest : List String) (c : ClientConfig)
    → command sets version program name rest ≡ connects c
    → IsAccepted c
command-IsAccepted sets version program name rest c h =
    let a = else_of (name == "version") (prints version) _ (connects c) (λ k. cc k) h in
    let b =
      else_of (name == "help" || name == "-h" || name == "--help" || name == "-help")
        (prints (usage program)) _ (connects c) (λ k. cc k) a in
    let d =
      else_of (name == "tuntls") (run_tuntls program (sets.tuntls rest)) _ (connects c)
        (run_tuntls-connects program (sets.tuntls rest) c) b in
    let e = else_of (name == "server") serves _ (connects c) (λ k. cc k) d in
    elim (either_of (name == "client") (run_client (sets.client rest))
      (fails (program ⧺ ": Invalid command " ⧺ name)) (connects c) e) [
        | inl k ↦ run_client-IsAccepted (sets.client rest) c k
        | inr k ↦ absurd (cc k)
      ]

main-IsAccepted :
    (sets : FlagSets) (version : String) (args : List String) (c : ClientConfig)
    → main sets version args ≡ connects c
    → IsAccepted c
unfolding main
main-IsAccepted sets version [] c h = absurd (cc h)
main-IsAccepted sets version (program ∷ []) c h = absurd (cc h)
main-IsAccepted sets version (program ∷ name ∷ rest) c h =
    command-IsAccepted sets version program name rest c h

-- A client that the command line starts has a server and a token; and if its interval is no more
-- than the 9223372036854 ms that a time.Duration holds, then up to any time, whatever the server
-- answers, it has polled once at most, and once more for each 100 ms.
pub main-polls :
    (sets : FlagSets) (version : String) (args : List String) (c : ClientConfig) (client : Client)
    (s : Loop)
    → main sets version args ≡ connects c
    → millis c.poll_interval ≤ 9223372036854
    → Steps c (started_loop c client) s
    → (c.server_addr ≢ "") × (c.token ≢ "") × (s.polls * gap ≤ gap + s.now)
main-polls sets version args c client s h k run =
    let good = main-IsAccepted sets version args c h in
    (good.server, good.token, paced good.interval)
  where
    paced : (c.poll_interval ≡ pos 0) ⊎ (100 ≤ millis c.poll_interval) → s.polls * gap ≤ gap + s.now
    paced (inl e) = let once = Steps-once c client s e run in omega (arith, once)
    paced (inr l) = Steps-polls c client s (delay-gap (millis c.poll_interval) l k) run
