-- ===== src/Client/Loops.antt =====
-- SyncTunnels as a whole.
use boringproxy.Prelude.{
  ℕ, ◌≡◌, refl, String, Bool, true, false, not, Option, none, some, [], ◌∷◌, ◌==◌, ◌&&◌,
  if◌then◌else◌, is_some, arith, eq_iff, Bool-cases, inl, inr,
}
use boringproxy.Prelude.GoMap.{GoMap, lookup, lookup-delete, IsMap}
use boringproxy.Prelude.Result.{Result, ok}
use boringproxy.Database.Types.{Tunnel}
use boringproxy.Client.{
  Client, eq_tunnel, stop, synced_with, sync_one, update, killed, kill_if, kill_missing,
  sync_tunnels,
}
use boringproxy.Client.Sync.{
  task, IsManaged, IsUpdated, next_task, next_tunnel, only, worker-stop, IsMap-delete,
}
use boringproxy.Client.Turn.{start_new, start_anew, keep_on, task-stopped}

-- A known tunnel has a cancel function.
func_of :
    (k : String) (t : Tunnel) (c : Client)
    → IsManaged c
    → lookup k c.tunnels ≡ some t
    → (i : ℕ) × (lookup k c.cancel_funcs ≡ some i)
func_of k t c g e = go (lookup k c.cancel_funcs) refl
  where
    go : (found : Option ℕ) → lookup k c.cancel_funcs ≡ found → (i : ℕ) × (found ≡ some i)
    go (some i) h = (i, refl)
    go none h = cc (g.funcs k, e, h)

abbrev Yields : (Client → Type 0) → Result Client → Type 0
Yields P r = (d : Client) × (r ≡ ok d) × P d

synced_with-IsUpdated :
    (k : String) (t : Tunnel) (c : Client) (found : Option Tunnel)
    → IsManaged c
    → lookup k c.tunnels ≡ found
    → Yields (IsUpdated (only k t) c) (synced_with k t c found)
synced_with-IsUpdated k t c none g e = (_, refl, start_new k c g t e)
synced_with-IsUpdated k t c (some old) g e = elim (Bool-cases (eq_tunnel t old)) [
  | inl n ↦ (c, rw n refl, keep_on k c g t old e n)
  | inr n ↦ let (i, f) = func_of k old c g e in (_, rw (n, f) refl, start_anew k c g t i old f e n)
]

sync_one-IsUpdated :
    (k : String) (t : Tunnel) (c : Client)
    → IsManaged c
    → Yields (IsUpdated (only k t) c) (sync_one k t c)
unfolding sync_one
sync_one-IsUpdated k t c g = synced_with-IsUpdated k t c (lookup k c.tunnels) g refl

update-IsUpdated :
    (s : GoMap Tunnel) (c : Client)
    → IsMap s
    → IsManaged c
    → Yields (IsUpdated (λ j. lookup j s) c) (update s c)
unfolding update lookup
update-IsUpdated [] c u g =
    (c, refl, record { managed = g; tunnels = λ j. refl; tasks = λ j. refl })
update-IsUpdated ((k, t) ∷ s) c (fresh, u) g =
    let (d, e, p) = sync_one-IsUpdated k t c g in
    let (d', e', q) = update-IsUpdated s d u p.managed in
    (
      d',
      rw e e',
      record {
        managed = q.managed;
        tunnels = λ j. ground (arith, p.tunnels j, q.tunnels j, eq_iff k j, fresh);
        tasks = λ j. ground (arith, p.tasks j, q.tasks j, p.tunnels j, eq_iff k j, fresh);
      },
    )

-- From `c` to `d` the names that `gone` tells were ended.
record IsPruned (gone : String → Bool) (c d : Client) : Type 0 where
  managed : IsManaged d
  tunnels : (j : String) → lookup j d.tunnels ≡ (if gone j then none else lookup j c.tunnels)
  tasks : (j : String) → task j d ≡ (if gone j then none else task j c)

killed-IsPruned :
    (k : String) (c : Client) (i : ℕ)
    → IsManaged c
    → lookup k c.cancel_funcs ≡ some i
    → IsPruned (λ j. k == j) c (killed k (record c { running = stop i c.running }))
killed-IsPruned k c i g f = record {
  managed = record {
    mapped = IsMap-delete k c.tunnels g.mapped;
    funcs = λ j.
        ground (arith, lookup-delete k j c.tunnels, lookup-delete k j c.cancel_funcs, g.funcs j);
    below = λ j l h. ground (arith, lookup-delete k j c.cancel_funcs, g.below j l);
    distinct = λ a b l h h'. ground (
      arith,
      lookup-delete k a c.cancel_funcs,
      lookup-delete k b c.cancel_funcs,
      g.distinct a b l,
    );
    reached = λ l t h.
        let (j, e) = g.reached l t (ground (arith, worker-stop i l c.running)) in
        (
          j,
          ground (
            arith,
            lookup-delete k j c.cancel_funcs,
            worker-stop i l c.running,
            eq_iff k j,
            h,
            e,
            f,
          ),
        );
  };
  tunnels = λ j. lookup-delete k j c.tunnels;
  tasks = λ j. ground (arith, lookup-delete k j c.cancel_funcs, task-stopped k c g i j f);
}

abbrev gone : GoMap Tunnel → GoMap Tunnel → String → Bool
gone s ts j = is_some (lookup j ts) && not (is_some (lookup j s))

kill_if-IsPruned :
    (b : Bool) (k : String) (t : Tunnel) (c : Client)
    → IsManaged c
    → lookup k c.tunnels ≡ some t
    → Yields (IsPruned (λ j. k == j && not b) c) (kill_if b k c)
kill_if-IsPruned true k t c g e =
    (c, refl, record { managed = g; tunnels = λ j. ground arith; tasks = λ j. ground arith })
kill_if-IsPruned false k t c g e =
    let (i, f) = func_of k t c g e in
    let p = killed-IsPruned k c i g f in
    (
      _,
      rw f refl,
      record {
        managed = p.managed;
        tunnels = λ j. ground (arith, p.tunnels j);
        tasks = λ j. ground (arith, p.tasks j);
      },
    )

kill_missing-IsPruned :
    (s ts : GoMap Tunnel) (c : Client)
    → IsMap ts
    → IsManaged c
    → ((j : String) (t : Tunnel) → lookup j ts ≡ some t → lookup j c.tunnels ≡ some t)
    → Yields (IsPruned (gone s ts) c) (kill_missing s ts c)
unfolding kill_missing lookup
kill_missing-IsPruned s [] c u g there =
    (c, refl, record { managed = g; tunnels = λ j. refl; tasks = λ j. refl })
kill_missing-IsPruned s ((k, t) ∷ ts) c (fresh, u) g there =
    let (d, e, p) =
      kill_if-IsPruned (is_some (lookup k s)) k t c g (there k t (ground (arith, eq_iff k k))) in
    let (d', e', q) =
      kill_missing-IsPruned s ts d u p.managed
        (λ j v h. ground (arith, p.tunnels j, there j v, eq_iff k j, h, fresh)) in
    (
      d',
      rw e e',
      record {
        managed = q.managed;
        tunnels = λ j. ground (arith, p.tunnels j, q.tunnels j, eq_iff k j, fresh);
        tasks = λ j. ground (arith, p.tasks j, q.tasks j, eq_iff k j, fresh);
      },
    )

-- What a sync makes of a name: the entry on the server, the tunnel that was known, the task that ran.
abbrev pub synced_task : Option Tunnel → Option Tunnel → Option Tunnel → Option Tunnel
synced_task none old w = none
synced_task (some t) old w = next_task (some t) old w

abbrev pub synced_tunnel : Option Tunnel → Option Tunnel → Option Tunnel
synced_tunnel none old = none
synced_tunnel (some t) old = next_tunnel (some t) old

pub record IsSynced (s : GoMap Tunnel) (c d : Client) : Type 0 where
  pub managed : IsManaged d
  pub tunnels : (j : String) → lookup j d.tunnels ≡ synced_tunnel (lookup j s) (lookup j c.tunnels)
  pub tasks : (j : String) → task j d ≡ synced_task (lookup j s) (lookup j c.tunnels) (task j c)

-- A name that is no tunnel has no task.
task-none : (j : String) (c : Client) → IsManaged c → lookup j c.tunnels ≡ none → task j c ≡ none
task-none j c g e = ground (arith, g.funcs j, e)

-- From a client whose tunnels have one cancel function each and that runs no goroutine besides,
-- SyncTunnels returns, without a panic, such a client: a tunnel that the server does not name is
-- forgotten and its goroutine ended; a new one is known and runs; one that differs from what is known
-- runs anew with the server's data; any other goes on as it was.
pub sync_tunnels-IsSynced :
    (s : GoMap Tunnel) (c : Client)
    → IsMap s
    → IsManaged c
    → (d : Client) × (sync_tunnels s c ≡ ok d) × IsSynced s c d
unfolding sync_tunnels
sync_tunnels-IsSynced s c u g =
    let (d, e, p) = update-IsUpdated s c u g in
    let (d', e', q) = kill_missing-IsPruned s d.tunnels d p.managed.mapped p.managed (λ j t h. h) in
    (
      d',
      rw e e',
      record {
        managed = q.managed;
        tunnels = λ j. ground (arith, q.tunnels j, p.tunnels j);
        tasks = λ j. ground (arith, q.tasks j, p.tasks j, p.tunnels j, task-none j d p.managed);
      },
    )
