-- ===== src/Client/Turn.antt =====
-- The turns of the first loop of SyncTunnels.
use boringproxy.Prelude.{
  ℕ, ◌≡◌, refl, ◌∙◌, ◌≢◌, String, true, false, Option, none, some, List, ◌==◌, if◌then◌else◌, arith,
  eq_iff,
}
use boringproxy.Prelude.GoMap.{GoMap, lookup, insert, lookup-insert}
use boringproxy.Database.Types.{Tunnel}
use boringproxy.Client.{Client, eq_tunnel, stop, worker, bored}
use boringproxy.Client.Sync.{
  with_worker, worker-stop, task, IsManaged, IsReady, IsUpdated, only, task-bored, bored-IsManaged,
  IsMap-insert,
}

pub apart :
    (i l : ℕ) (t : Tunnel) (ws : List (ℕ × Tunnel))
    → worker l (stop i ws) ≡ some t
    → some i ≢ some l
apart i l t ws h p = ground (arith, worker-stop i l ws, h, p)

module _ (k : String) (c : Client) (g : IsManaged c) where
  new-IsReady :
      (ts : GoMap Tunnel) → lookup k c.tunnels ≡ none → IsReady k (record c { tunnels = ts })
  new-IsReady ts e = record {
    below = g.below;
    distinct = g.distinct;
    reached = λ i t h. let (j, f) = g.reached i t h in (j, λ p. cc (g.funcs k, e, p, f), f);
  }

  stopped-IsReady :
      (i : ℕ)
      → lookup k c.cancel_funcs ≡ some i
      → IsReady k (record c { running = stop i c.running })
  stopped-IsReady i e = record {
    below = g.below;
    distinct = g.distinct;
    reached = λ l t h.
        let (j, f) = g.reached l t (ground (arith, worker-stop i l c.running)) in
        (j, λ p. apart i l t c.running h (cc (e, f, p)), f);
  }

  pub task-stopped :
      (i : ℕ) (j : String)
      → lookup k c.cancel_funcs ≡ some i
      → task j (record c { running = stop i c.running }) ≡ (if k == j then none else task j c)
  task-stopped i j e = go (lookup j c.cancel_funcs) refl
    where
      go :
          (found : Option ℕ)
          → lookup j c.cancel_funcs ≡ found
          → with_worker (stop i c.running) found
            ≡ (if k == j then none else with_worker c.running found)
      go none h = ground arith
      go (some l) h =
          ground (arith, worker-stop i l c.running, eq_iff k j, g.distinct k j i e, e, h)

  module _ (t : Tunnel) where
    pub start_new :
        lookup k c.tunnels ≡ none
        → IsUpdated (only k t) c (bored k t (record c { tunnels = insert k t c.tunnels }))
    start_new e =
        let ready = new-IsReady (insert k t c.tunnels) e in
        record {
          managed =
              bored-IsManaged k t (record c { tunnels = insert k t c.tunnels }) ready
                (IsMap-insert k t c.tunnels g.mapped)
                (λ j. ground (arith, lookup-insert k j t c.tunnels, g.funcs j));
          tunnels = λ j. ground (arith, lookup-insert k j t c.tunnels, eq_iff k j, e);
          tasks = λ j.
              task-bored k t (record c { tunnels = insert k t c.tunnels }) ready j
              ∙ ground (arith, eq_iff k j, e);
        }

    pub start_anew :
        (i : ℕ) (old : Tunnel)
        → lookup k c.cancel_funcs ≡ some i
        → lookup k c.tunnels ≡ some old
        → eq_tunnel t old ≡ false
        → IsUpdated (only k t) c (bored k t (record c { running = stop i c.running }))
    start_anew i old f e n =
        let ready = stopped-IsReady i f in
        let stopped = record c { running = stop i c.running } in
        record {
          managed =
              bored-IsManaged k t stopped ready g.mapped
                (λ j. ground (arith, g.funcs j, eq_iff k j, f));
          tunnels = λ j. ground (arith, eq_iff k j, e);
          tasks = λ j.
              task-bored k t stopped ready j ∙ ground (arith, task-stopped i j f, eq_iff k j, e, n);
        }

    pub keep_on :
        (old : Tunnel)
        → lookup k c.tunnels ≡ some old
        → eq_tunnel t old ≡ true
        → IsUpdated (only k t) c c
    keep_on old e n = record {
      managed = g;
      tunnels = λ j. ground (arith, eq_iff k j, e);
      tasks = λ j. ground (arith, eq_iff k j, e, n);
    }
