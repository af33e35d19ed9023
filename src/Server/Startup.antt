-- ===== src/Server/Startup.antt =====
-- boringproxy.go: Listen from the database to the login link, and setAdminDomain. What is fatal there
-- is an error here.
pub mod First
use boringproxy.Prelude.{
  ℕ, String, Bool, true, false, Option, none, some, [], ◌∷◌, ◌==◌, ◌!=◌, ◌&&◌, not, if◌then◌else◌,
}
use boringproxy.Prelude.Int.{ℤ, pos, eq_ℤ, itoa}
use boringproxy.Prelude.Text.{◌⧺◌, trim_space}
use boringproxy.Prelude.GoMap.{GoMap}
use boringproxy.Prelude.Result.{Result, ok, err, panic, ◌>>=◌}
use boringproxy.Database.Types.{TokenData}
use boringproxy.Database.Store.{Disk, Database, get_admin_domain, set_admin_domain, get_tokens}
use boringproxy.Database.Startup.{new_database}
use boringproxy.Server.{init_admin}

-- The flags that count.
pub record Settings : Type 0 where
  pub new_admin_domain : String
  pub http_port : ℤ
  pub https_port : ℤ
  pub print_login : Bool

-- What others answer: the two lines that are typed in, whether certmagic gets a certificate, namedrop's
-- BootstrapLink, and the random source.
pub record Console : Type 0 where
  pub action : String
  pub typed_domain : String
  pub manage_sync : String → Bool
  pub bootstrap_link : Result String
  pub random : ℕ → ℕ → Result ℕ

pub record Started : Type 0 where
  pub db : Database
  pub auto_certs : Bool
  -- the login link that is printed
  pub link : Option String

abbrev pub auto_certs_for : Settings → Bool
auto_certs_for s = eq_ℤ s.http_port (pos 80) && eq_ℤ s.https_port (pos 443)

abbrev pub certified : Console → Bool → String → Database → Result Database
certified c auto_certs domain d =
    if auto_certs && not (c.manage_sync domain) then err "certificate" else ok d

abbrev pub bootstrapped : Database → Result String → Result Database
bootstrapped d (ok link) = ok d
bootstrapped d (err e) = err e
bootstrapped d panic = panic

-- setAdminDomain; prompt trims what is typed
unfoldable pub choose_admin_domain : Console → Bool → Database → Result Database
unfolding trim_space set_admin_domain
choose_admin_domain c auto_certs d =
    if trim_space c.action == "1"
    then certified c auto_certs (trim_space c.typed_domain)
        (set_admin_domain (trim_space c.typed_domain) d)
    else if trim_space c.action == "2"
    then bootstrapped d c.bootstrap_link
    else err "Invalid option"

abbrev pub with_flag : String → Database → Database
with_flag domain d = if domain != "" then set_admin_domain domain d else d

abbrev pub with_admin_domain : Console → Bool → Database → Result Database
with_admin_domain c auto_certs d =
    if get_admin_domain d == ""
    then choose_admin_domain c auto_certs d
    else certified c auto_certs (get_admin_domain d) d

-- printLoginInfo
unfoldable pub login_link : String → ℤ → String → String
unfolding itoa
login_link domain https_port token =
    if eq_ℤ https_port (pos 443)
    then "https://" ⧺ domain ⧺ "/login?access_token=" ⧺ token
    else "https://" ⧺ domain ⧺ ":" ⧺ itoa https_port ⧺ "/login?access_token=" ⧺ token

-- The loop of -print-login
unfoldable pub printed : String → ℤ → GoMap TokenData → Option String
unfolding login_link
printed domain https_port [] = none
printed domain https_port ((token, token_data) ∷ tokens) =
    let rest = printed domain https_port tokens in
    if token_data.owner == "admin" && token_data.client == ""
    then some (login_link domain https_port token)
    else rest

abbrev pub started_with : Settings → Database → Started
started_with s d = record {
  db = d;
  auto_certs = auto_certs_for s;
  link = if s.print_login then printed (get_admin_domain d) s.https_port (get_tokens d) else none;
}

-- Listen, until it serves
unfoldable pub start : Settings → Console → Disk → Result Started
unfolding new_database set_admin_domain choose_admin_domain init_admin printed
start s c disk = do
  d ← new_database disk
  e ← with_admin_domain c (auto_certs_for s) (with_flag s.new_admin_domain d)
  f ← init_admin c.random e
  ok (started_with s f)
