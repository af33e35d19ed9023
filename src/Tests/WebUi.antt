-- ===== src/Tests/WebUi.antt =====
-- The web interface: runs at concrete requests, and its theorems there.
use boringproxy.Prelude.{◌≡◌, ◌≢◌, refl, String, true, false, none, some, [], ◌∷◌, inr}
use boringproxy.Prelude.GoMap.{lookup}
use boringproxy.Prelude.Text.{◌⧺◌}
use boringproxy.Prelude.Result.{Result, ok, panic}
use boringproxy.Http.{Request, Values, page, fresh_writer, get, parse_form, write}
use boringproxy.Pages.{add_token_client_page}
use boringproxy.Database.Types.{Tunnel, User}
use boringproxy.Api.Tunnels.{api_create_tunnel}
use boringproxy.Api.Rule.{IsCaller}
use boringproxy.Api.Isolation.{Isolated}
use boringproxy.WebUi.Reply.{Assets, answered, creating, loading}
use boringproxy.WebUi.Tunnels.{still_loading, finished, tunnels_handler, handle_create_tunnel}
use boringproxy.WebUi.Handler.{handle_loading, pages, handle_web_ui_request}
use boringproxy.WebUi.Isolation.{IsOfCaller, handle_web_ui_request-Isolated}
use boringproxy.WebUi.Privacy.{add_token_client-shows}
use boringproxy.WebUi.Pending.{
  Ui, unmade, running, idle, selecting, receiving, replied, accept, ran, delivered, visit, create,
  take, Run, here, next,
}
use boringproxy.WebUi.Pending.Stuck.{IsFresh, IsLater}
use boringproxy.WebUi.Pending.Later.{Run-IsLater, loading_forever}
use boringproxy.WebUi.Pending.Progress.{creating-finishes}
use boringproxy.WebUi.Pending.Registry.{registry, Moves}
use boringproxy.WebUi.Pending.Refinement.{Run-Moves}
use boringproxy.Tests.Tunnels.{database-IsConsistent}
use boringproxy.Tests.Api.{server, zeros-IsFresh, bob_is_low, owned_by_bob}
use boringproxy.Examples.{works, bob_token, database, manager, world, ask}

-- Templates and packages that always work.
abbrev pub assets : Assets
assets = record {
  parse = none;
  fault = λ p. none;
  starts = λ p. false;
  logo = ok "PNG";
  qr_png = λ url. ok url;
  base64 = λ png. png;
  request_link = "https://takingnames.io";
}

-- Unfolds what the creation of a tunnel runs through.
interface : Unit {0}
unfolding server handle_web_ui_request pages tunnels_handler handle_create_tunnel handle_loading
    accept api_create_tunnel
interface = tt

abbrev new_token : Request
new_token = ask "POST" "/tokens" "tb" (("owner", "bob" ∷ []) ∷ [])

IsCaller-new_token : IsCaller new_token world bob_token
unfolding server
IsCaller-new_token = record { token = "tb"; carried = refl; stored = refl }

handle_web_ui_request-Isolated_example :
    Isolated "bob" database (handle_web_ui_request assets manager works new_token world).0.db
    × IsOfCaller bob_token new_token (handle_web_ui_request assets manager works new_token world).1
handle_web_ui_request-Isolated_example =
    handle_web_ui_request-Isolated assets manager works new_token world bob_token IsCaller-new_token
      bob_is_low zeros-IsFresh

abbrev list_tokens : Request
list_tokens = ask "GET" "/tokens" "tb" []

abbrev spying : Request
spying = record (ask "GET" "/add-token-client" "tb" []) {
  raw_query = "access_token=tb&owner=admin";
  query = ("access_token", "tb" ∷ []) ∷ ("owner", "admin" ∷ []) ∷ [];
}

IsCaller-spying : IsCaller spying world bob_token
unfolding server
IsCaller-spying = record { token = "tb"; carried = refl; stored = refl }

abbrev admin_user : User
admin_user = record { is_admin = true; clients = some [] }

admin_found : lookup (get "owner" (parse_form spying)) database.users ≡ some admin_user
unfolding server
admin_found = refl

add_token_client-shows_example : handle_web_ui_request assets manager works spying world ≡ (
  world,
  answered (
      ok (
        write
          (page (add_token_client_page (get "owner" (parse_form spying)) admin_user))
          fresh_writer)),
)
add_token_client-shows_example =
    add_token_client-shows assets manager works spying world bob_token admin_user IsCaller-spying
      refl refl admin_found refl refl

abbrev start : Ui
start = record {
  world = world;
  pending = [];
  job = λ c. unmade;
  made = 0;
  wait = λ n. idle;
  accepted = 0;
}

start-IsFresh : IsFresh start
start-IsFresh = record { jobs = λ c h. refl; waits = λ n h. refl }

abbrev code : String
code = "0000000000000000"

abbrev form : Values
form = parse_form owned_by_bob

bob_asks :
    handle_web_ui_request assets manager works owned_by_bob world
    ≡ (world, creating none code bob_token form fresh_writer)
unfolding interface
bob_asks = refl

abbrev wait_for_it : Request
wait_for_it = record (ask "GET" "/loading" "tb" []) {
  raw_query = "access_token=tb&id=" ⧺ code;
  query = ("access_token", "tb" ∷ []) ∷ ("id", code ∷ []) ∷ [];
}

bob_waits :
    handle_web_ui_request assets manager works wait_for_it world
    ≡ (world, loading code fresh_writer)
unfolding interface
bob_waits = refl

no_panic : (api_create_tunnel manager works bob_token form world).1 ≢ panic
unfolding interface
no_panic h = cc h

creating-finishes_example :
    (u : Ui) × Run assets manager start u
    × (u.wait 0 ≡ replied (ok (still_loading assets none code fresh_writer)))
    × (u.wait 1
        ≡ replied
            (finished assets (api_create_tunnel manager works bob_token form world).1 fresh_writer))
    × (u.world ≡ (api_create_tunnel manager works bob_token form world).0)
creating-finishes_example =
    creating-finishes assets manager works works works owned_by_bob wait_for_it start world world
      none code bob_token form fresh_writer fresh_writer bob_asks bob_waits no_panic

-- The request of Bob is answered with the result, in time.
abbrev posted : Ui
posted = accept (handle_web_ui_request assets manager works owned_by_bob world) start

posted_job : posted.job 0 ≡ running bob_token form
unfolding interface
posted_job = refl

posted_world : posted.world ≡ world
unfolding interface
posted_world = refl

posted_wait : posted.wait 0 ≡ selecting 0 none code fresh_writer
unfolding interface
posted_wait = refl

abbrev result : Result Tunnel
result = (api_create_tunnel manager works bob_token form posted.world).1

abbrev made_one : Ui
made_one = ran posted 0 (api_create_tunnel manager works bob_token form posted.world).0 result

abbrev in_time : Ui
in_time = delivered assets made_one 0 0 fresh_writer result

still_no_panic : result ≢ panic
unfolding interface
still_no_panic h = cc h

in_time-Run : Run assets manager start in_time
in_time-Run =
    next
      (next (next here (visit works owned_by_bob))
        (create works 0 bob_token form posted_job still_no_panic))
      (take 0 0 none code fresh_writer result posted_wait refl)

Run-IsLater_example : IsLater start in_time
Run-IsLater_example = Run-IsLater in_time-Run start-IsFresh

Run-Moves_example : Moves (registry database) (registry in_time.world.db)
Run-Moves_example = Run-Moves database-IsConsistent in_time-Run

in_time-IsFresh : IsFresh in_time
in_time-IsFresh = (Run-IsLater in_time-Run start-IsFresh).fresh

still_pending : lookup code in_time.pending ≡ some 0
unfolding interface
still_pending = refl

loading_forever_example :
    (accept (world, loading code fresh_writer) in_time).wait in_time.accepted
    ≡ receiving (lookup code in_time.pending) fresh_writer
loading_forever_example =
    loading_forever {a = assets} {m = manager} in_time world code fresh_writer in_time-IsFresh
      (inr (0, still_pending, refl)) here
