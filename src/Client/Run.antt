-- ===== src/Client/Run.antt =====
-- client.go: NewClient and Run, the registration and the loop that polls.
pub mod Pace
use boringproxy.Prelude.{
  ℕ, zero, suc, ◌+◌, ◌*◌, ◌%◌, ◌≡◌, ◌≤◌, String, Bool, true, false, not, Option, none, some, List,
  [], ◌∷◌, ◌==◌, ◌!=◌, eqb, ltb, if◌then◌else◌,
}
use boringproxy.Prelude.Int.{ℤ, pos, negsuc, itoa}
use boringproxy.Prelude.Text.{◌⧺◌}
use boringproxy.Prelude.Result.{Result, ok, err, panic}
use boringproxy.Utils.{random_open_port}
use boringproxy.Client.{Client, Reply, poll_tunnels}

pub record ClientConfig : Type 0 where
  pub server_addr : String
  pub token : String
  pub client_name : String
  pub user : String
  pub cert_dir : String
  pub acme_email : String
  pub acme_use_staging : Bool
  pub acme_ca : String
  pub dns_server : String
  pub behind_proxy : Bool
  pub poll_interval : ℤ

abbrev pub zero_client : Client
zero_client = record {
  tunnels = [];
  previous_etag = "";
  cancel_funcs = [];
  running = [];
  started = 0;
}

abbrev pub with_challenge_port : Result ℤ → Result Client
with_challenge_port (ok port) = ok zero_client
with_challenge_port (err e) = err "Failed get random port for TLS challenges"
with_challenge_port panic = panic

-- NewClient, with what net.Listen answers; what it sets in other packages is left out
unfoldable pub new_client : Result String → Result Client
unfolding random_open_port
new_client listen = with_challenge_port (random_open_port listen)

abbrev pub register_url : ClientConfig → String
register_url config =
    let url = "https://" ⧺ config.server_addr ⧺ "/api/clients/?client-name=" ⧺ config.client_name in
    if config.user != "" then url ⧺ "&user=" ⧺ config.user else url

-- `len(c.token) > 0`
abbrev pub bearer : String → Option String
bearer token = if token == "" then none else some ("bearer " ⧺ token)

-- The network: the error of http.NewRequest for a URL, if it is not nil, and the status and the body of
-- the answer to a POST with an Authorization header.
pub record Post : Type 0 where
  pub new_request : String → Option String
  pub send : String → Option String → Result (ℕ × Result String)

abbrev pub refusal : ClientConfig → ℕ → Result String → Result (Unit {0})
refusal config status (ok message) = err (
    "Failed to create client. Are the user ('"
    ⧺ config.user
    ⧺ "') and token correct? HTTP Status code: "
    ⧺ itoa (pos status)
    ⧺ ". Message: "
    ⧺ message)
refusal config status (err e) =
    err
      ("Failed to create client. HTTP Status code: " ⧺ itoa (pos status) ⧺ ". Failed to read body")
refusal config status panic = panic

abbrev pub registered : ClientConfig → Result (ℕ × Result String) → Result (Unit {0})
registered config (ok (status, body)) = if eqb status 200 then ok tt else refusal config status body
registered config (err e) =
    err ("Failed to create client. Ensure the server is running. URL: " ⧺ register_url config)
registered config panic = panic

abbrev pub posted : Post → ClientConfig → Option String → Result (Unit {0})
posted post config none = registered config (post.send (register_url config) (bearer config.token))
posted post config (some e) = err ("Failed to create request for URL " ⧺ register_url config)

-- Run, up to its loop
unfoldable pub register : Post → ClientConfig → Result (Unit {0})
unfolding itoa
register post config = posted post config (post.new_request (register_url config))

abbrev pub word : ℕ
word = 18446744073709551616

-- time.Duration(c.pollInterval) * time.Millisecond, in nanoseconds of 64 bits (2^64 = word); a negative
-- one is over at once.
unfoldable pub delay : ℕ → ℕ
delay ms = let ns = ms * 1000000 % word in if ltb (ns + ns) word then ns else 0

-- The loop of Run, and the goroutine that ticks: off, asleep since a time, or sending on pollChan.
pub data Main : Type 0 where
  polling : Main
  waiting : Main
  returned : Main

pub data Ticker : Type 0 where
  off : Ticker
  asleep : ℕ → Ticker
  ticking : Ticker

pub record Loop : Type 0 where
  pub client : Client
  pub main : Main
  pub ticker : Ticker
  -- nanoseconds since the loop began, and how often PollTunnels was called
  pub now : ℕ
  pub polls : ℕ

abbrev pub ticker_for : ℤ → Ticker
ticker_for (pos zero) = off
ticker_for (pos (suc n)) = asleep 0
ticker_for (negsuc n) = off

abbrev pub started_loop : ClientConfig → Client → Loop
started_loop config c = record {
  client = c;
  main = polling;
  ticker = ticker_for config.poll_interval;
  now = 0;
  polls = 0;
}

abbrev pub millis : ℤ → ℕ
millis (pos n) = n
millis (negsuc n) = 0

-- An error of PollTunnels is printed; a panic ends the process.
abbrev pub polled_client : Client → Result Client → Option Client
polled_client c (ok d) = some d
polled_client c (err e) = some c
polled_client c panic = none

pub data Step (config : ClientConfig) (s : Loop) : Loop → Type 0 where
  poll :
      (reply : Result Reply) (c : Client)
      → s.main ≡ polling
      → polled_client s.client (poll_tunnels reply s.client) ≡ some c
      → Step config s (record s { client = c; main = waiting; polls = suc s.polls })
  wake :
      (since : ℕ)
      → s.ticker ≡ asleep since
      → since + delay (millis config.poll_interval) ≤ s.now
      → Step config s (record s { ticker = ticking })
  -- the select receives from pollChan, or finds the context done
  tick :
      s.main ≡ waiting
      → s.ticker ≡ ticking
      → Step config s (record s { main = polling; ticker = asleep s.now })
  done : s.main ≡ waiting → Step config s (record s { main = returned })
  pass : (ns : ℕ) → Step config s (record s { now = s.now + ns })

pub data Steps (config : ClientConfig) (s : Loop) : Loop → Type 0 where
  here : Steps config s s
  next : {t u : Loop} → Steps config s t → Step config t u → Steps config s u
