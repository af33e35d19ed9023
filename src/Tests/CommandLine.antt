-- ===== src/Tests/CommandLine.antt =====
-- The command line: runs at concrete arguments, and its theorem there.
use boringproxy.Prelude.{◌≡◌, refl, ◌≢◌, ◌≤◌, ◌*◌, ◌+◌, String, false, none, List, [], ◌∷◌, arith}
use boringproxy.Prelude.Int.{pos, itoa}
use boringproxy.Prelude.Result.{err}
use boringproxy.Client.Run.{
  ClientConfig, zero_client, started_loop, Loop, Steps, here, next, poll, wake, tick, pass, asleep,
  polling, delay,
}
use boringproxy.Client.{poll_tunnels}
use boringproxy.Client.Run.Pace.{gap}
use boringproxy.CommandLine.{FlagSets, flags, connects, fails, main, client_command}
use boringproxy.CommandLine.Client.{main-polls}

abbrev config : ClientConfig
config = record {
  server_addr = "bp.example.com";
  token = "tb";
  client_name = "laptop";
  user = "";
  cert_dir = "";
  acme_email = "";
  acme_use_staging = false;
  acme_ca = "";
  dns_server = "";
  behind_proxy = false;
  poll_interval = pos 2000;
}

abbrev sets : FlagSets
sets = record { tuntls = λ args. flags none ("", pos 0); client = λ args. flags none config }

abbrev args : List String
args = "boringproxy" ∷ "client" ∷ "-server" ∷ "bp.example.com" ∷ "-token" ∷ "tb" ∷ []

args-connect : main sets "1" args ≡ connects config
unfolding main client_command
args-connect = refl

too_often :
    client_command (record config { poll_interval = pos 99 })
    ≡ fails "-poll-interval-ms must be at least 100, or 0 to disable polling"
unfolding client_command itoa
too_often = refl

unreachable : poll_tunnels (err "no route") zero_client ≡ err "no route"
unfolding poll_tunnels
unreachable = refl

abbrev later : Loop
later = record (started_loop config zero_client) {
  main = polling;
  ticker = asleep 2000000000;
  now = 2000000000;
  polls = 1;
}

two_seconds : 0 + delay 2000 ≤ 0 + 2000000000
unfolding delay
two_seconds = omega arith

one_tick : Steps config (started_loop config zero_client) later
unfolding poll_tunnels
one_tick =
    next
      (next (next (next here (poll (err "no route") zero_client refl refl)) (pass 2000000000))
        (wake 0 refl two_seconds))
      (tick refl refl)

main-polls_example :
    (config.server_addr ≢ "") × (config.token ≢ "") × (later.polls * gap ≤ gap + later.now)
main-polls_example =
    main-polls sets "1" args config zero_client later args-connect (omega arith) one_tick
