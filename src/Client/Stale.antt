-- ===== src/Client/Stale.antt =====
-- A tunnel that changes on the server and changes back.
use boringproxy.Prelude.{◌≡◌, refl, Bool, true, false, some, String, arith, eq_refl}
use boringproxy.Prelude.Int.{eq_ℤ_refl}
use boringproxy.Prelude.GoMap.{GoMap, lookup, IsMap}
use boringproxy.Prelude.Result.{ok}
use boringproxy.Database.Types.{Tunnel}
use boringproxy.Client.{Client, eq_bool, eq_tunnel, sync_tunnels}
use boringproxy.Client.Sync.{task, IsManaged}
use boringproxy.Client.Loops.{sync_tunnels-IsSynced}

eq_bool_refl : (b : Bool) → eq_bool b b ≡ true
eq_bool_refl true = refl
eq_bool_refl false = refl

eq_tunnel_refl : (t : Tunnel) → eq_tunnel t t ≡ true
unfolding eq_tunnel
eq_tunnel_refl t = simp (eq_refl, eq_ℤ_refl, eq_bool_refl)

-- When a known tunnel changes on the server and then changes back, the second sync leaves the
-- goroutine with the data of the change: what the client knows was not brought up to date by the
-- first, so that the second sees no difference.
pub sync_tunnels-stale :
    (s s' : GoMap Tunnel) (c : Client) (k : String) (old changed : Tunnel)
    → IsMap s
    → IsMap s'
    → IsManaged c
    → lookup k c.tunnels ≡ some old
    → lookup k s ≡ some changed
    → lookup k s' ≡ some old
    → eq_tunnel changed old ≡ false
    → (d d' : Client) × (sync_tunnels s c ≡ ok d)
      × (sync_tunnels s' d ≡ ok d')
      × (task k d' ≡ some changed)
sync_tunnels-stale s s' c k old changed u u' g known first second differs =
    let (d, e, p) = sync_tunnels-IsSynced s c u g in
    let (d', e', q) = sync_tunnels-IsSynced s' d u' p.managed in
    (
      d,
      d',
      e,
      e',
      ground (
        arith,
        p.tunnels k,
        p.tasks k,
        q.tasks k,
        known,
        first,
        second,
        differs,
        eq_tunnel_refl old,
      ),
    )
