-- ===== src/Tests/Client.antt =====
-- The client's tunnels: the theorems at concrete inputs.
use boringproxy.Prelude.{◌⊎◌, ◌≢◌, ◌≡◌, refl, String, false, some, [], ◌∷◌, arith, eq_iff}
use boringproxy.Prelude.Int.{pos}
use boringproxy.Prelude.GoMap.{GoMap, lookup, IsMap}
use boringproxy.Prelude.Result.{ok}
use boringproxy.Database.Types.{Tunnel}
use boringproxy.Client.{Reply, poll_tunnels, Client, eq_tunnel, worker, sync_tunnels}
use boringproxy.Client.Sync.{task, IsManaged}
use boringproxy.Client.Loops.{IsSynced, sync_tunnels-IsSynced}
use boringproxy.Client.Poll.{poll_tunnels-IsSynced}
use boringproxy.Client.Stale.{sync_tunnels-stale}
use boringproxy.Examples.{site}

abbrev name : String
name = "a.example.com"

abbrev moved_site : Tunnel
moved_site = record site { client_port = pos 8080 }

abbrev client : Client
client = record {
  tunnels = (name, site) ∷ [];
  previous_etag = "";
  cancel_funcs = (name, 0) ∷ [];
  running = (0, site) ∷ [];
  started = 1;
}

abbrev on_server : GoMap Tunnel
on_server = (name, moved_site) ∷ ("b.example.com", site) ∷ []

abbrev back : GoMap Tunnel
back = (name, site) ∷ []

client-IsManaged : IsManaged client
unfolding lookup worker
client-IsManaged = record {
  mapped = (refl, tt);
  funcs = λ k. ground (arith, eq_iff name k);
  below = λ k i h. ground (arith, eq_iff name k);
  distinct = λ j k i h h'. ground (arith, eq_iff name j, eq_iff name k);
  reached = λ i t h. (name, ground (arith, eq_iff name name));
}

on_server-IsMap : IsMap on_server
unfolding lookup
on_server-IsMap = (refl, (refl, tt))

back-IsMap : IsMap back
unfolding lookup
back-IsMap = (refl, tt)

known : lookup name client.tunnels ≡ some site
unfolding lookup
known = refl

on_server_moved : lookup name on_server ≡ some moved_site
unfolding lookup
on_server_moved = refl

back_again : lookup name back ≡ some site
unfolding lookup
back_again = refl

differs : eq_tunnel moved_site site ≡ false
unfolding eq_tunnel
differs = refl

sync_tunnels-IsSynced_example :
    (d : Client) × (sync_tunnels on_server client ≡ ok d) × IsSynced on_server client d
sync_tunnels-IsSynced_example =
    sync_tunnels-IsSynced on_server client on_server-IsMap client-IsManaged

sync_tunnels-stale_example :
    (d d' : Client) × (sync_tunnels on_server client ≡ ok d)
    × (sync_tunnels back d ≡ ok d')
    × (task name d' ≡ some moved_site)
sync_tunnels-stale_example =
    sync_tunnels-stale on_server back client name site moved_site on_server-IsMap back-IsMap
      client-IsManaged known on_server_moved back_again differs

abbrev reply : Reply
reply = record { status = 200; etag = some "new"; tunnels = ok on_server }

poll_tunnels-IsSynced_example :
    (d : Client) × (poll_tunnels (ok reply) client ≡ ok d)
    × (d.previous_etag ≡ "new")
    × ((("new" ≡ client.previous_etag) × (d ≡ client))
        ⊎ (("new" ≢ client.previous_etag) × IsSynced on_server client d))
    × (poll_tunnels (ok reply) d ≡ ok d)
poll_tunnels-IsSynced_example =
    poll_tunnels-IsSynced reply on_server "new" client refl refl refl on_server-IsMap
      client-IsManaged
