-- ===== src/Tests/Listen.antt =====
-- Every HTTP request and TLS connection of a server: the theorems at concrete inputs.
use boringproxy.Prelude.{
  ◌≡◌, refl, ◌≢◌, true, false, none, some, [], ◌∷◌, if◌then◌else◌, arith, eq_iff,
}
use boringproxy.Prelude.Int.{pos}
use boringproxy.Prelude.Text.{has_prefix, split}
use boringproxy.Prelude.Result.{ok, err}
use boringproxy.Http.{Request, get, parse_form}
use boringproxy.Database.Types.{Tunnel}
use boringproxy.Database.Store.{set_admin_domain}
use boringproxy.TunnelManager.Manager.{World}
use boringproxy.Api.Tunnels.{api_create_tunnel}
use boringproxy.Client.Bore.{Ssh, Bored, https, bore_tunnel}
use boringproxy.Server.{host_domain, by_host, handle_connection, to_api, to_web_ui}
use boringproxy.Server.Callback.{Scope, Namedrop, fqdn_of, namedrop_callback}
use boringproxy.Server.Listen.{Incoming, Parts, serve}
use boringproxy.Server.Listen.Guard.{serve-keeps, namedrop_callback-first}
use boringproxy.Server.Termination.{
  EndsOnce, ends_at_server, ends_at_client, api_create_tunnel-EndsOnce,
}
use boringproxy.Tests.Api.{server}
use boringproxy.Tests.WebUi.{assets}
use boringproxy.Examples.{works, site, bob_token, database, manager, world, ask, tunnel_form}

abbrev scope : Scope
scope = record { domain = "example.com"; host = "bp" }

-- Requests of package namedrop are numbers here.
abbrev namedrop : Namedrop (Unit {0})
namedrop = record { get_token = λ id code dns. (dns, ok (scope ∷ [])); create_record = λ r. none }

abbrev parts : Parts (Unit {0})
parts = record {
  namedrop = namedrop;
  assets = assets;
  network = record {
    new_request = λ method url. none;
    split_host_port = λ address. ok "198.51.100.7";
    send = λ upstream. err "refused";
  };
  behind_proxy = false;
}

abbrev callback_elsewhere : Incoming
callback_elsewhere = record {
  request = record (ask "GET" "/namedrop/callback" "" []) { host = "a.example.com" };
  downstream = record {
    method = "GET";
    host = "a.example.com";
    request_uri = "/namedrop/callback";
    headers = [];
    body = "";
    content_length = pos 0;
    has_tls = true;
    proto_major = 2;
    remote_addr = "198.51.100.7:1234";
    basic_auth = none;
  };
}

has_admin_domain : world.db.admin_domain ≢ ""
has_admin_domain = ground (arith, eq_iff "bp.example.com" "")

elsewhere : host_domain callback_elsewhere.request.host ≢ world.db.admin_domain
unfolding host_domain split
elsewhere = ground (arith, eq_iff "a.example.com" "bp.example.com")

serve-keeps_example :
    ((serve parts manager works callback_elsewhere world []).0.0 ≡ world)
    × (callback_elsewhere.request.path ≢ "/namedrop/callback"
        → (serve parts manager works callback_elsewhere world []).0.1 ≡ [])
serve-keeps_example =
    serve-keeps parts manager works callback_elsewhere world [] has_admin_domain elsewhere

abbrev bare : World
bare = record world { db = record database { admin_domain = "" } }

abbrev granting : Request
granting = record (ask "GET" "/namedrop/callback" "" []) {
  raw_query = "state=s&code=c";
  query = ("state", "s" ∷ []) ∷ ("code", "c" ∷ []) ∷ [];
}

abbrev first_visit : Request
first_visit = ask "GET" "/tunnels" "ta" []

no_error_param : get "error" (parse_form granting) ≡ ""
unfolding server
no_error_param = refl

visits_new_domain : host_domain first_visit.host ≡ fqdn_of scope
unfolding host_domain split
visits_new_domain = refl

no_callback : first_visit.path ≢ "/namedrop/callback"
no_callback = ground (arith, eq_iff "/tunnels" "/namedrop/callback")

namedrop_callback-first_example :
    ((namedrop_callback namedrop manager works granting (bare, [])).0
      ≡ (record bare { db = set_admin_domain (fqdn_of scope) bare.db }, []))
    × (by_host first_visit (namedrop_callback namedrop manager works granting (bare, [])).0.0.db
        ≡ (if has_prefix first_visit.path "/api/" then to_api else to_web_ui))
namedrop_callback-first_example =
    namedrop_callback-first namedrop manager works granting first_visit bare [] [] scope [] refl
      no_error_param refl refl refl visits_new_domain no_callback

abbrev ssh : Ssh
ssh = record { parse_private_key = λ key. none; dial = λ host user. none; listen = λ address. none }

abbrev for_bob : Tunnel
for_bob = record site {
  domain = "b.example.com";
  server_address = "bp.example.com";
  server_port = pos 22;
  username = "bp";
  tunnel_port = pos 40001;
  tunnel_private_key = "PEM";
  client_address = "127.0.0.1";
  tls_termination = "client";
  owner = "bob";
}

bob_creates_it :
    (api_create_tunnel manager works bob_token (tunnel_form "b.example.com" "bob") world).1
    ≡ ok for_bob
unfolding server
bob_creates_it = refl

abbrev bored_for_bob : Bored
bored_for_bob = record {
  address = "127.0.0.1:40001";
  serving = https;
  managed = some "b.example.com";
}

bores : bore_tunnel ssh for_bob ≡ ok bored_for_bob
unfolding bore_tunnel server
bores = refl

api_create_tunnel-EndsOnce_example :
    EndsOnce
      (ends_at_server (
        handle_connection for_bob.domain
          (api_create_tunnel manager works bob_token
            (tunnel_form "b.example.com" "bob")
            world).0.db))
      (ends_at_client bored_for_bob.serving)
      for_bob.tls_termination
api_create_tunnel-EndsOnce_example =
    api_create_tunnel-EndsOnce manager works bob_token (tunnel_form "b.example.com" "bob") world
      for_bob ssh bored_for_bob bob_creates_it bores
