-- ===== src/Client/Poll.antt =====
-- One poll of the server, and a second one.
use boringproxy.Prelude.{
  ◌≡◌, refl, sym, ◌≢◌, ◌⊎◌, inl, inr, String, some, ◌==◌, eq_refl, Bool-cases, eq_of_test,
  ne_of_test,
}
use boringproxy.Prelude.GoMap.{GoMap, IsMap}
use boringproxy.Prelude.Result.{ok}
use boringproxy.Database.Types.{Tunnel}
use boringproxy.Client.{Client, Reply, poll_tunnels}
use boringproxy.Client.Sync.{IsManaged}
use boringproxy.Client.Loops.{IsSynced, sync_tunnels-IsSynced}

with_etag-IsSynced :
    (s : GoMap Tunnel) (c d : Client) (etag : String)
    → IsSynced s c d
    → IsSynced s c (record d { previous_etag = etag })
with_etag-IsSynced s c d etag p = record {
  managed = record {
    mapped = p.managed.mapped;
    funcs = p.managed.funcs;
    below = p.managed.below;
    distinct = p.managed.distinct;
    reached = p.managed.reached;
  };
  tunnels = p.tunnels;
  tasks = p.tasks;
}

-- A poll that is answered with 200, an Etag and a decodable body returns a client that knows the
-- Etag: the client as it was if the Etag is the one of the last poll, and one that is in line with
-- the tunnels of the answer otherwise. Polling again for the same answer then changes nothing.
pub poll_tunnels-IsSynced :
    (reply : Reply) (s : GoMap Tunnel) (etag : String) (c : Client)
    → reply.status ≡ 200
    → reply.etag ≡ some etag
    → reply.tunnels ≡ ok s
    → IsMap s
    → IsManaged c
    → (d : Client) × (poll_tunnels (ok reply) c ≡ ok d)
      × (d.previous_etag ≡ etag)
      × (((etag ≡ c.previous_etag) × (d ≡ c)) ⊎ ((etag ≢ c.previous_etag) × IsSynced s c d))
      × (poll_tunnels (ok reply) d ≡ ok d)
unfolding poll_tunnels
poll_tunnels-IsSynced reply s etag c status tag body u g =
    elim (Bool-cases (etag == c.previous_etag)) [
      | inl e ↦
          let same = eq_of_test etag c.previous_etag e in
          (c, rw (status, tag, e) refl, sym same, inl (same, refl), rw (status, tag, e) refl)
      | inr e ↦
          let (d, run, p) = sync_tunnels-IsSynced s c u g in
          (
            record d { previous_etag = etag },
            rw (status, tag, e, body, run) refl,
            refl,
            inr (ne_of_test etag c.previous_etag e, with_etag-IsSynced s c d etag p),
            rw (status, tag, eq_refl etag) refl,
          )
    ]
