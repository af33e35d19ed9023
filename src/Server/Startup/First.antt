-- ===== src/Server/Startup/First.antt =====
-- The first start of a server.
use boringproxy.Prelude.{◌≡◌, refl, ◌≢◌, String, Bool, true, false, some, [], test_of_ne}
use boringproxy.Prelude.Int.{ℤ}
use boringproxy.Prelude.GoMap.{lookup, insert, delete}
use boringproxy.Prelude.Result.{ok}
use boringproxy.Utils.RandomCode.{Draws, gen_random_code-count}
use boringproxy.Database.Store.{missing, Disk, Database, persist, set_admin_domain, new_user}
use boringproxy.Database.Startup.{empty_database, unmarshal, new_database}
use boringproxy.Server.{init_admin, authorized}
use boringproxy.Server.Admin.{with_admin, with_token, init_admin-first, stored-first, has_admin}
use boringproxy.Server.Startup.{
  Settings, Console, Started, auto_certs_for, certified, with_flag, with_admin_domain, login_link,
  printed, started_with, start,
}

new_database-first :
    (disk : Disk) → disk.file ≡ missing → new_database disk ≡ ok (persist (empty_database disk))
unfolding new_database unmarshal
new_database-first disk h = rw h refl

certified-ok :
    (c : Console) (auto_certs : Bool) (domain : String) (d : Database)
    → c.manage_sync domain ≡ true
    → certified c auto_certs domain d ≡ ok d
certified-ok c true domain d h = rw h refl
certified-ok c false domain d h = refl

flag-sets :
    (domain : String) (d : Database) → domain ≢ "" → with_flag domain d ≡ set_admin_domain domain d
flag-sets domain d h = rw (test_of_ne domain "" h) refl

-- The database with its admin domain, before the admin is added.
abbrev named : String → Disk → Database
named domain disk = set_admin_domain domain (persist (empty_database disk))

keeps-domain :
    (c : Console) (auto_certs : Bool) (domain : String) (disk : Disk)
    → domain ≢ ""
    → c.manage_sync domain ≡ true
    → with_admin_domain c auto_certs (named domain disk) ≡ ok (named domain disk)
unfolding set_admin_domain persist
keeps-domain c auto_certs domain disk h k =
    rw (test_of_ne domain "" h) (certified-ok c auto_certs domain (named domain disk) k)

no_users : (domain : String) (disk : Disk) → (named domain disk).users ≡ []
unfolding set_admin_domain persist
no_users domain disk = refl

links :
    (domain token : String) (port : ℤ) (disk : Disk)
    → printed
        (with_token token (with_admin (named domain disk))).admin_domain
        port
        (with_token token (with_admin (named domain disk))).tokens
      ≡ some (login_link domain port token)
unfolding printed set_admin_domain persist insert delete
links domain token port disk = refl

start_from :
    (s : Settings) (c : Console) (disk : Disk) (d e f : Database)
    → new_database disk ≡ ok d
    → with_flag s.new_admin_domain d ≡ e
    → with_admin_domain c (auto_certs_for s) e ≡ ok e
    → init_admin c.random e ≡ ok f
    → start s c disk ≡ ok (started_with s f)
unfolding start
start_from s c disk d e f h k l i = rw (h, k, l, i) refl

-- The first start, without a file of the database and with an admin domain and -print-login in its
-- flags, while the random source and certmagic work: it comes up under that domain, with the user
-- admin, and the login link that it prints leads to that domain with a token that is known, belongs
-- to the admin and is limited to no client.
pub start-first :
    (s : Settings) (c : Console) (disk : Disk)
    → disk.file ≡ missing
    → s.new_admin_domain ≢ ""
    → c.manage_sync s.new_admin_domain ≡ true
    → s.print_login ≡ true
    → Draws c.random
    → (e : Started) × (token : String) × (start s c disk ≡ ok e)
      × (e.db.admin_domain ≡ s.new_admin_domain)
      × (lookup "admin" e.db.users ≡ some (new_user true))
      × (lookup token e.db.tokens ≡ some (record { owner = "admin"; client = "" }))
      × (authorized token e.db ≡ true)
      × (e.link ≡ some (login_link s.new_admin_domain s.https_port token))
unfolding authorized set_admin_domain persist
start-first s c disk new given certain prints draws =
    let (token, drawn, _) = gen_random_code-count c.random 32 draws in
    let base = named s.new_admin_domain disk in
    let held = stored-first token (with_admin base) in
    (
      started_with s (with_token token (with_admin base)),
      token,
      start_from s c disk (persist (empty_database disk)) base (with_token token (with_admin base))
          (new_database-first disk new)
          (flag-sets s.new_admin_domain (persist (empty_database disk)) given)
          (keeps-domain c (auto_certs_for s) s.new_admin_domain disk given certain)
          (init_admin-first c.random base token drawn (no_users s.new_admin_domain disk)),
      refl,
      has_admin base,
      held,
      rw held refl,
      rw prints (links s.new_admin_domain token s.https_port disk),
    )
