-- ===== src/Tests/Server.antt =====
-- The server's routes and its first admin: the theorems at concrete inputs.
use boringproxy.Prelude.{
  ◌≡◌, ◌≢◌, eq_iff, refl, String, true, false, none, some, [], ◌∷◌, ◌==◌, if◌then◌else◌, arith,
}
use boringproxy.Prelude.Text.{◌⧺◌, trim_space}
use boringproxy.TunnelManager.KeyFile.{FileWorks}
use boringproxy.Client.Bore.{Ssh, Bored, tcp, bore_tunnel}
use boringproxy.Client.Permit.{request_create_tunnel-permits}
use boringproxy.Prelude.Int.{pos, itoa}
use boringproxy.Prelude.GoMap.{lookup, insert, delete}
use boringproxy.Prelude.Result.{ok}
use boringproxy.Utils.RandomCode.{Draws}
use boringproxy.Database.Types.{Tunnel}
use boringproxy.Database.Store.{new_user}
use boringproxy.TunnelManager.Keys.{
  add_to_authorized_keys, make_ssh_key_pair, rewrite, restrictions, tunnel_id,
}
use boringproxy.TunnelManager.Manager.{
  request_create_tunnel, remove_tunnel, admit, precheck, with_port, no_conflict,
}
use boringproxy.Server.{to_http, handle_connection, authorized}
use boringproxy.Server.Routes.{
  FollowsTermination, handle_connection-created, handle_connection-removed,
}
use boringproxy.Server.Listen.{redirect_tls}
use boringproxy.Server.Startup.{Settings, Console, Started, login_link, start}
use boringproxy.Server.Startup.First.{start-first}
use boringproxy.Http.{fresh_writer, write_header, set_header}
use boringproxy.Examples.{works, site, database, manager, world}

-- A tunnel for the server's own admin domain, which any user may ask for.
abbrev takeover : Tunnel
takeover = record site {
  domain = "bp.example.com";
  tunnel_port = pos 5002;
  owner = "bob";
  tls_termination = "passthrough";
}

abbrev taken : Tunnel
taken = record takeover { username = "bp"; tunnel_private_key = "PEM" }

takes : (request_create_tunnel manager works takeover world).1 ≡ ok taken
unfolding request_create_tunnel admit precheck with_port no_conflict add_to_authorized_keys rewrite
    make_ssh_key_pair
takes = refl

handle_connection-created_example :
    (taken.tls_termination ≡ takeover.tls_termination)
    × FollowsTermination taken (
        handle_connection "bp.example.com"
          (request_create_tunnel manager works takeover world).0.db)
    × ((name : String)
        → "bp.example.com" ≢ name
        → handle_connection name (request_create_tunnel manager works takeover world).0.db
          ≡ handle_connection name world.db)
handle_connection-created_example =
    handle_connection-created manager works takeover world taken takes

handle_connection-removed_example :
    handle_connection "a.example.com" (remove_tunnel manager works "a.example.com" world).0.db ≡ (
      if "a.example.com" == "a.example.com"
      then to_http
      else handle_connection "a.example.com" world.db)
handle_connection-removed_example =
    handle_connection-removed manager works "a.example.com" "a.example.com" world

zeros_drawn : Draws works.random
zeros_drawn = record { index = λ i max. 0; drawn = λ i max h. refl; below = λ i max h. h }

abbrev settings : Settings
settings = record {
  new_admin_domain = "bp.example.com";
  http_port = pos 80;
  https_port = pos 443;
  print_login = true;
}

abbrev console : Console
console = record {
  action = "";
  typed_domain = "";
  manage_sync = λ domain. true;
  bootstrap_link = ok "";
  random = works.random;
}

domain_given : settings.new_admin_domain ≢ ""
domain_given = ground (arith, eq_iff "bp.example.com" "")

start-first_example :
    (e : Started) × (token : String) × (start settings console database.disk ≡ ok e)
    × (e.db.admin_domain ≡ settings.new_admin_domain)
    × (lookup "admin" e.db.users ≡ some (new_user true))
    × (lookup token e.db.tokens ≡ some (record { owner = "admin"; client = "" }))
    × (authorized token e.db ≡ true)
    × (e.link ≡ some (login_link settings.new_admin_domain settings.https_port token))
start-first_example =
    start-first settings console database.disk refl domain_given refl refl zeros_drawn

-- A host that names a port keeps it.
redirected : redirect_tls (pos 443) "bp.example.com:8080" "/x" ≡ record fresh_writer {
  status = some 301;
  headers = ("Location", "https://bp.example.com:8080:443/x" ∷ []) ∷ [];
}
unfolding redirect_tls write_header set_header itoa insert delete
redirected = refl

file_calls : FileWorks works
file_calls = record {
  opens = refl;
  reads = refl;
  truncates = refl;
  seeks = refl;
  writes = λ s. refl;
}

pair_made : make_ssh_key_pair works ≡ ok ("ssh-rsa AAAA\n", "PEM")
unfolding make_ssh_key_pair
pair_made = refl

abbrev ssh : Ssh
ssh = record { parse_private_key = λ key. none; dial = λ host user. none; listen = λ address. none }

abbrev bored : Bored
bored = record { address = "127.0.0.1:5002"; serving = tcp false; managed = none }

bores_taken : bore_tunnel ssh taken ≡ ok bored
unfolding bore_tunnel itoa
bores_taken = refl

request_create_tunnel-permits_example :
    (taken.tunnel_private_key ≡ "PEM")
    × ((request_create_tunnel manager works takeover world).0.authorized_keys
        ≡ some (
            "ssh-rsa OLD me\n"
            ⧺ ((restrictions ⧺ bored.address ⧺ "\"")
                ⧺ " "
                ⧺ trim_space "ssh-rsa AAAA\n"
                ⧺ " "
                ⧺ tunnel_id taken.domain taken.tunnel_port)
            ⧺ "\n"))
request_create_tunnel-permits_example =
    request_create_tunnel-permits manager works takeover taken world "ssh-rsa OLD me\n"
      "ssh-rsa AAAA\n" "PEM" ssh bored file_calls pair_made refl takes bores_taken
