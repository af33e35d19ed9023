-- ===== src/Client/Sync.antt =====
-- The goroutines and cancel functions of a client, and what starting a goroutine does to them.
use boringproxy.Prelude.{
  ℕ, ◌<◌, ◌≡◌, refl, ◌≢◌, String, true, Option, none, some, List, [], ◌∷◌, ◌==◌, eqb, if◌then◌else◌,
  is_some, arith, eq_iff, Bool-cases, inl, inr,
}
use boringproxy.Prelude.GoMap.{GoMap, lookup, insert, delete, lookup-insert, lookup-delete, IsMap}
use boringproxy.Database.Types.{Tunnel}
use boringproxy.Client.{Client, eq_tunnel, stop, worker, bored}

pub worker-stop :
    (i j : ℕ) (ws : List (ℕ × Tunnel))
    → worker j (stop i ws) ≡ (if eqb i j then none else worker j ws)
unfolding worker stop
worker-stop i j [] = ground arith
worker-stop i j ((k, t) ∷ ws) = ground (arith, worker-stop i j ws)

abbrev pub with_worker : List (ℕ × Tunnel) → Option ℕ → Option Tunnel
with_worker ws none = none
with_worker ws (some i) = worker i ws

-- The tunnel that the goroutine of a name runs, if one is running.
abbrev pub task : String → Client → Option Tunnel
task k c = with_worker c.running (lookup k c.cancel_funcs)

-- Each tunnel has one cancel function of its own, and no goroutine runs that none of them ends.
pub record IsManaged (c : Client) : Type 0 where
  pub mapped : IsMap c.tunnels
  pub funcs : (k : String) → is_some (lookup k c.tunnels) ≡ is_some (lookup k c.cancel_funcs)
  pub below : (k : String) (i : ℕ) → lookup k c.cancel_funcs ≡ some i → i < c.started
  pub distinct :
      (j k : String) (i : ℕ)
      → lookup j c.cancel_funcs ≡ some i
      → lookup k c.cancel_funcs ≡ some i
      → j ≡ k
  pub reached :
      (i : ℕ) (t : Tunnel)
      → worker i c.running ≡ some t
      → (k : String) × (lookup k c.cancel_funcs ≡ some i)

module _ {ℓ} {V : Type ℓ} where
  pub IsMap-delete : (k : String) (m : GoMap V) → IsMap m → IsMap (delete k m)
  unfolding delete
  IsMap-delete k [] u = tt
  IsMap-delete k ((j, v) ∷ m) (fresh, u) = elim (Bool-cases (j == k)) [
    | inl e ↦ rw e (IsMap-delete k m u)
    | inr e ↦ rw e (ground (arith, lookup-delete k j m, fresh), IsMap-delete k m u)
  ]

  pub IsMap-insert : (k : String) (v : V) (m : GoMap V) → IsMap m → IsMap (insert k v m)
  unfolding insert
  IsMap-insert k v m u = (ground (arith, lookup-delete k k m, eq_iff k k), IsMap-delete k m u)

-- What a turn of the first loop comes to for one name: the entry on the server, the tunnel that was
-- known, and the task that was running.
abbrev pub next_task : Option Tunnel → Option Tunnel → Option Tunnel → Option Tunnel
next_task none old w = w
next_task (some t) none w = some t
next_task (some t) (some u) w = if eq_tunnel t u then w else some t

abbrev pub next_tunnel : Option Tunnel → Option Tunnel → Option Tunnel
next_tunnel none old = old
next_tunnel (some t) none = some t
next_tunnel (some t) (some u) = some u

abbrev pub only : String → Tunnel → String → Option Tunnel
only k t j = if k == j then some t else none

-- From `c` to `d` the entries `on j` of the server were dealt with.
pub record IsUpdated (on : String → Option Tunnel) (c d : Client) : Type 0 where
  pub managed : IsManaged d
  pub tunnels : (j : String) → lookup j d.tunnels ≡ next_tunnel (on j) (lookup j c.tunnels)
  pub tasks : (j : String) → task j d ≡ next_task (on j) (lookup j c.tunnels) (task j c)

-- A state in which no goroutine runs under the name, ready for one to be started.
pub record IsReady (k : String) (c : Client) : Type 0 where
  pub below : (j : String) (i : ℕ) → lookup j c.cancel_funcs ≡ some i → i < c.started
  pub distinct :
      (a b : String) (i : ℕ)
      → lookup a c.cancel_funcs ≡ some i
      → lookup b c.cancel_funcs ≡ some i
      → a ≡ b
  pub reached :
      (i : ℕ) (t : Tunnel)
      → worker i c.running ≡ some t
      → (j : String) × (j ≢ k) × (lookup j c.cancel_funcs ≡ some i)

module _ (k : String) (t : Tunnel) (c : Client) (g : IsReady k c) where
  reached-bored :
      (i : ℕ) (u : Tunnel)
      → worker i (bored k t c).running ≡ some u
      → (j : String) × (lookup j (bored k t c).cancel_funcs ≡ some i)
  unfolding worker
  reached-bored i u h = elim (Bool-cases (eqb i c.started)) [
    | inl e ↦ (k, ground (arith, lookup-insert k k c.started c.cancel_funcs, eq_iff k k))
    | inr e ↦
        let (j, n, f) = g.reached i u (ground arith) in
        (j, ground (arith, lookup-insert k j c.started c.cancel_funcs, eq_iff k j))
  ]

  with_worker-bored :
      (j : String) (found : Option ℕ)
      → lookup j c.cancel_funcs ≡ found
      → with_worker ((c.started, t) ∷ c.running) (if k == j then some c.started else found)
        ≡ (if k == j then some t else with_worker c.running found)
  unfolding worker
  with_worker-bored j none e = ground arith
  with_worker-bored j (some i) e = ground (arith, g.below j i e)

  pub task-bored : (j : String) → task j (bored k t c) ≡ (if k == j then some t else task j c)
  task-bored j =
      rw (lookup-insert k j c.started c.cancel_funcs)
        (with_worker-bored j (lookup j c.cancel_funcs) refl)

  pub bored-IsManaged :
      IsMap c.tunnels
      → ((j : String)
          → is_some (lookup j c.tunnels)
            ≡ (if k == j then true else is_some (lookup j c.cancel_funcs)))
      → IsManaged (bored k t c)
  bored-IsManaged u same = record {
    mapped = u;
    funcs = λ j. ground (arith, lookup-insert k j c.started c.cancel_funcs, same j);
    below = λ j i h. ground (arith, lookup-insert k j c.started c.cancel_funcs, g.below j i);
    distinct = λ a b i h h'. ground (
      arith,
      lookup-insert k a c.started c.cancel_funcs,
      lookup-insert k b c.started c.cancel_funcs,
      g.below a i,
      g.below b i,
      g.distinct a b i,
      eq_iff k a,
      eq_iff k b,
    );
    reached = reached-bored;
  }
