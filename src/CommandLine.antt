-- ===== src/CommandLine.antt =====
-- cmd/boringproxy/main.go: the commands, and the flags that they insist on.
pub mod Client
use boringproxy.Prelude.{
  ℕ, zero, suc, String, Bool, true, false, Option, none, some, List, [], ◌∷◌, ◌==◌, ◌||◌, ltb,
  if◌then◌else◌,
}
use boringproxy.Prelude.Int.{ℤ, pos, negsuc, eq_ℤ, itoa}
use boringproxy.Prelude.Text.{◌⧺◌}
use boringproxy.Client.Run.{ClientConfig}

-- What flagSet.Parse comes to: the package ends the process with a status, or it returns an error, if it
-- is not nil, and leaves these values in the flags.
pub data Parsed {ℓ} (A : Type ℓ) : Type ℓ where
  ended : ℕ → Parsed A
  flags : Option String → A → Parsed A

-- The flags of the commands. Those of `client` are the fields of ClientConfig, one by one.
pub record FlagSets : Type 0 where
  pub tuntls : List String → Parsed (String × ℤ)
  pub client : List String → Parsed ClientConfig

-- What main does: print and end, end with a message and the status 1, the same with the usage
-- printed, end with a status of the package flag, panic, or go on with a command.
pub data Action : Type 0 where
  prints : String → Action
  fails : String → Action
  misused : String → String → Action
  ends : ℕ → Action
  panics : Action
  pipes : String → Action
  listens : String → ℤ → Action
  serves : Action
  connects : ClientConfig → Action

abbrev pub usage : String → String
usage program =
    "Usage: " ⧺ program
    ⧺ " [command] [flags]\n\nCommands:\n    version      Prints version information.\n    server       Start a new server.\n    client       Connect to a server.\n    tuntls       Tunnel a raw TLS connection.\n\nUse \""
    ⧺ program ⧺ " command -h\" for a list of flags for the command.\n"

abbrev pub min_poll_interval : ℕ
min_poll_interval = 100

-- `*pollInterval != 0 && *pollInterval < minPollInterval`
abbrev pub is_too_often : ℤ → Bool
is_too_often (pos zero) = false
is_too_often (pos (suc n)) = ltb (suc n) min_poll_interval
is_too_often (negsuc n) = true

unfoldable pub client_command : ClientConfig → Action
unfolding itoa
client_command c =
    if c.server_addr == ""
    then fails "-server is required"
    else if c.token == ""
    then fails "-token is required"
    else if is_too_often c.poll_interval
    then fails (
        "-poll-interval-ms must be at least "
        ⧺ itoa (pos min_poll_interval)
        ⧺ ", or 0 to disable polling")
    else connects c

-- Behind an error of the flags of `client` the code goes on.
abbrev pub run_client : Parsed ClientConfig → Action
run_client (ended status) = ends status
run_client (flags e c) = client_command c

abbrev pub run_tuntls : String → Parsed (String × ℤ) → Action
run_tuntls program (ended status) = ends status
run_tuntls program (flags (some e) f) = fails (program ⧺ ": parsing flags: " ⧺ e)
run_tuntls program (flags none (server, port)) =
    if server == ""
    then fails "server argument is required"
    else if eq_ℤ port (pos 0)
    then pipes server
    else listens server port

-- The switch on the command.
abbrev pub command : FlagSets → String → String → String → List String → Action
command sets version program name rest =
    if name == "version"
    then prints version
    else if name == "help" || name == "-h" || name == "--help" || name == "-help"
    then prints (usage program)
    else if name == "tuntls"
    then run_tuntls program (sets.tuntls rest)
    else if name == "server"
    then serves
    else if name == "client"
    then run_client (sets.client rest)
    else fails (program ⧺ ": Invalid command " ⧺ name)

-- main, for os.Args
unfoldable pub main : FlagSets → String → List String → Action
unfolding client_command
main sets version [] = panics
main sets version (program ∷ []) = misused (program ⧺ ": Need a command") (usage program)
main sets version (program ∷ name ∷ rest) = command sets version program name rest
