-- ===== src/Tests/Api.antt =====
-- The API: runs at concrete requests, and its theorems there.
use boringproxy.Prelude.{
  ◌≡◌, refl, sym, ◌∙◌, String, true, false, none, some, [], ◌∷◌, arith, eq_iff, ◌&&◌, ◌⊎◌, inl, inr,
  is_some,
}
use boringproxy.Prelude.Int.{pos, itoa, atoi}
use boringproxy.Prelude.GoMap.{lookup, insert, delete, IsMap, keep_if, option_map}
use boringproxy.Prelude.Text.{has_prefix, split, trim_space}
use boringproxy.Prelude.Result.{ok, panic}
use boringproxy.Http.{Request, Values, get, parse_form, refuse, write, write_header, sent_status}
use boringproxy.Utils.{extract_token, gen_random_code, random_open_port}
use boringproxy.Database.Types.{TokenData, Tunnel, zero_user}
use boringproxy.Database.Store.{
  add_token, persist, set_user, delete_user, set_tunnel, delete_tunnel, save_json,
}
use boringproxy.TunnelManager.Keys.{
  add_to_authorized_keys, remove_from_authorized_keys, key_line, key_options, tunnel_id,
  make_ssh_key_pair, rewrite,
}
use boringproxy.TunnelManager.Manager.{
  request_create_tunnel, remove_tunnel, admit, precheck, with_port, no_conflict,
}
use boringproxy.Api.Tunnels.{
  caller, tunnel_request, api_create_tunnel, api_delete_tunnel, may_delete_tunnel,
}
use boringproxy.Api.Tokens.{api_create_token, token_client, has_client}
use boringproxy.Api.Users.{api_create_user, may_create_user, api_delete_user, may_delete_user}
use boringproxy.Api.Clients.{may_manage, api_set_client, api_delete_client, owner_of}
use boringproxy.Api.Handlers.{
  serve_http, handle_tunnels, handle_users, handle_tokens, handle_clients, manage_client,
  sent_tunnels,
}
use boringproxy.Api.Requests.{IsGranted, tunnel_request-IsGranted}
use boringproxy.Api.Rule.{IsCaller}
use boringproxy.Api.Denial.{IsDenied, serve_http-IsDenied}
use boringproxy.Api.Isolation.{Isolated, IsFresh}
use boringproxy.Api.Isolation.Requests.{serve_http-Isolated}
use boringproxy.Api.Limited.{OnlyClient, serve_http-OnlyClient}
use boringproxy.Api.Soundness.{IsSound}
use boringproxy.Api.Soundness.Expulsion.{IsExpelled, api_delete_user-IsExpelled}
use boringproxy.Api.ClientLists.{api_set_client_cases, api_delete_client-creates}
use boringproxy.Tests.Tunnels.{database-IsConsistent}
use boringproxy.Api.Visibility.{sees, wanted, with_ssh_port, lookup-sent_tunnels}
use boringproxy.Examples.{
  works, admin_token, bob_token, laptop_token, site, database, manager, world, ask, tunnel_form,
}

-- Unfolds what a request runs through.
unfoldable pub server : Unit {0}
unfolding serve_http handle_tunnels handle_users handle_tokens handle_clients manage_client
    api_create_tunnel api_delete_tunnel may_delete_tunnel tunnel_request api_create_token
    token_client api_create_user may_create_user api_set_client api_delete_client may_manage get
    parse_form refuse write write_header sent_status extract_token gen_random_code random_open_port
    split has_prefix itoa atoi lookup insert delete add_token set_user set_tunnel delete_tunnel
    persist save_json add_to_authorized_keys remove_from_authorized_keys key_line key_options
    tunnel_id make_ssh_key_pair rewrite request_create_tunnel remove_tunnel admit precheck with_port
    no_conflict trim_space
server = tt

pub IsCaller-bob :
    IsCaller (ask "POST" "/tunnels" "tb" (tunnel_form "b.example.com" "bob")) world bob_token
unfolding server
IsCaller-bob = record { token = "tb"; carried = refl; stored = refl }

-- Bob gets a tunnel on the port that the listener got.
bob_creates :
    lookup "b.example.com"
      (serve_http manager works
        (ask "POST" "/tunnels" "tb" (tunnel_form "b.example.com" "bob"))
        world).0.db.tunnels
    ≡ some (record site {
      domain = "b.example.com";
      server_address = "bp.example.com";
      server_port = pos 22;
      username = "bp";
      tunnel_port = pos 40001;
      tunnel_private_key = "PEM";
      client_address = "127.0.0.1";
      tls_termination = "client";
      owner = "bob";
    })
unfolding server
bob_creates = refl

two_owners :
    (k : String) (t : TokenData)
    → lookup k database.tokens ≡ some t
    → (t.owner ≡ "admin") ⊎ (t.owner ≡ "bob")
unfolding lookup
two_owners k t h = ground arith

pub two_users_IsSound : IsSound database
unfolding lookup
two_users_IsSound = record {
  consistent = database-IsConsistent;
  owned = λ k t h. elim (two_owners k t h) [ inl e ↦ rw e refl | inr e ↦ rw e refl ];
}

IsCaller-laptop :
    IsCaller (ask "POST" "/clients/" "tl" (("client-name", "laptop" ∷ []) ∷ [])) world laptop_token
unfolding server
IsCaller-laptop = record { token = "tl"; carried = refl; stored = refl }

zeros_code : gen_random_code works.random 32 ≡ ok "00000000000000000000000000000000"
unfolding gen_random_code
zeros_code = refl

zeros_unused : lookup "00000000000000000000000000000000" database.tokens ≡ none
unfolding lookup
zeros_unused = refl

ok-eq : (a b : String) → ok a ≡ ok b → a ≡ b
ok-eq a b h = cc

pub zeros-IsFresh : IsFresh works.random database
zeros-IsFresh token h = rw (← ok-eq _ token (sym zeros_code ∙ h)) zeros_unused

pub bob_is_low : (caller bob_token database).is_admin ≡ false
unfolding lookup
bob_is_low = refl

abbrev stranger : Request
stranger = ask "POST" "/tunnels" "zz" (tunnel_form "b.example.com" "bob")

stranger_token : extract_token "access_token" stranger ≡ ok "zz"
unfolding server
stranger_token = refl

stranger_unknown : (t : TokenData) → ¬ IsCaller stranger world t
unfolding lookup
stranger_unknown t c =
    let found = rw (← ok-eq "zz" c.token (sym stranger_token ∙ c.carried)) at c.stored in cc found

abbrev pub owned_by_bob : Request
owned_by_bob = ask "POST" "/tunnels" "tb" (tunnel_form "b.example.com" "bob")

serve_http-Isolated_example :
    Isolated "bob" database (serve_http manager works owned_by_bob world).0.db
serve_http-Isolated_example =
    serve_http-Isolated manager works owned_by_bob world bob_token IsCaller-bob bob_is_low
      database-IsConsistent zeros-IsFresh

serve_http-IsDenied_example : IsDenied stranger world (serve_http manager works stranger world)
serve_http-IsDenied_example = serve_http-IsDenied manager works stranger world stranger_unknown

abbrev from_laptop : Request
from_laptop = ask "POST" "/clients/" "tl" (("client-name", "laptop" ∷ []) ∷ [])

serve_http-OnlyClient_example :
    OnlyClient "laptop" database (serve_http manager works from_laptop world).0.db
serve_http-OnlyClient_example =
    serve_http-OnlyClient manager works from_laptop world laptop_token IsCaller-laptop
      (ground (arith, eq_iff "laptop" ""))

lookup-sent_tunnels_example :
    lookup "a.example.com" (sent_tunnels (pos 22) admin_token "" database)
    ≡ option_map (with_ssh_port (pos 22) "") (
        keep_if
          (λ tun. sees admin_token database tun && wanted admin_token "" tun)
          (lookup "a.example.com" database.tunnels))
lookup-sent_tunnels_example = lookup-sent_tunnels (pos 22) admin_token "" database "a.example.com"

abbrev granted : Tunnel
granted = record site {
  domain = "b.example.com";
  owner = "bob";
  server_address = "bp.example.com";
  tunnel_port = pos 0;
  client_address = "127.0.0.1";
  tls_termination = "client";
  server_port = pos 22;
}

grants :
    tunnel_request manager.config bob_token (tunnel_form "b.example.com" "bob") database
    ≡ ok granted
unfolding server
grants = refl

tunnel_request-IsGranted_example :
    IsGranted bob_token (tunnel_form "b.example.com" "bob") database granted
tunnel_request-IsGranted_example =
    tunnel_request-IsGranted manager.config bob_token (tunnel_form "b.example.com" "bob") database
      granted grants

abbrev bob_form : Values
bob_form = ("username", "bob" ∷ []) ∷ []

bob_goes : (api_delete_user admin_token bob_form database).1 ≡ ok tt
unfolding server api_delete_user may_delete_user delete_user
bob_goes = refl

three_tokens-IsMap : IsMap database.tokens
unfolding lookup
three_tokens-IsMap = (refl, (refl, (refl, tt)))

api_delete_user-IsExpelled_example :
    IsExpelled (get "username" bob_form) database (api_delete_user admin_token bob_form database).0
api_delete_user-IsExpelled_example =
    api_delete_user-IsExpelled admin_token bob_form database three_tokens-IsMap bob_goes

admin_manages : may_manage admin_token "bob" database ≡ ok tt
unfolding server
admin_manages = refl

api_set_client_cases_example :
    (((owner_of "bob" database).clients ≡ none)
      × (api_set_client admin_token "bob" "pc" database ≡ (database, panic)))
    ⊎ ((is_some (owner_of "bob" database).clients ≡ true)
        × ((api_set_client admin_token "bob" "pc" database).1 ≡ ok tt)
        × (has_client "pc" (owner_of "bob" (api_set_client admin_token "bob" "pc" database).0)
            ≡ true))
api_set_client_cases_example = api_set_client_cases admin_token "bob" "pc" database admin_manages

admin_manages_ghost : may_manage admin_token "ghost" database ≡ ok tt
unfolding server
admin_manages_ghost = refl

no_ghost : lookup "ghost" database.users ≡ none
unfolding lookup
no_ghost = refl

api_delete_client-creates_example :
    ((api_delete_client admin_token "ghost" "pc" database).1 ≡ ok tt)
    × (lookup "ghost" (api_delete_client admin_token "ghost" "pc" database).0.users
        ≡ some zero_user)
api_delete_client-creates_example =
    api_delete_client-creates admin_token "ghost" "pc" database admin_manages_ghost no_ghost
