-- ===== src/TunnelManager/Invariant.antt =====
-- The invariant of the tunnel table: each tunnel stands under its own domain, has an owner, and no two
-- share a port.
use boringproxy.Prelude.{◌≡◌, refl, sym, ◌∙◌, ◌≢◌, String, some, [], arith, eq_iff}
use boringproxy.Prelude.GoMap.{GoMap, lookup, insert, lookup-insert, lookup-nil}
use boringproxy.Prelude.Result.{Result, ok}
use boringproxy.Outside.{Outside}
use boringproxy.Database.Types.{Tunnel}
use boringproxy.TunnelManager.Manager.{
  TunnelManager, World, request_create_tunnel, remove_tunnel, completed,
}
use boringproxy.TunnelManager.Outcome.{
  NoClash, Creation, done, refused, request_create_tunnel-Creation, remove_tunnel_lem,
}
use boringproxy.Database.Store.{set_tunnel, persist}

pub record IsConsistent (m : GoMap Tunnel) : Type 0 where
  pub keyed : (k : String) (t : Tunnel) → lookup k m ≡ some t → t.domain ≡ k
  pub owned : (k : String) (t : Tunnel) → lookup k m ≡ some t → t.owner ≢ ""
  pub distinct :
      (j k : String) (s t : Tunnel)
      → lookup j m ≡ some s
      → lookup k m ≡ some t
      → s.tunnel_port ≡ t.tunnel_port
      → j ≡ k

pub IsConsistent-nil : IsConsistent []
IsConsistent-nil = record {
  keyed = λ k t e. cc (lookup-nil {V = Tunnel} k);
  owned = λ k t e. cc (lookup-nil {V = Tunnel} k);
  distinct = λ j k s t e f p. cc (lookup-nil {V = Tunnel} j);
}

insert-IsConsistent :
    (m : GoMap Tunnel) (t : Tunnel)
    → IsConsistent m
    → t.owner ≢ ""
    → NoClash t m
    → IsConsistent (insert t.domain t m)
insert-IsConsistent m t c own clear = record {
  keyed = λ k s e. ground (arith, lookup-insert t.domain k t m, eq_iff t.domain k, c.keyed k s);
  owned = λ k s e. ground (arith, lookup-insert t.domain k t m, c.owned k s);
  distinct = λ j k r s e f p. ground (
    arith,
    lookup-insert t.domain j t m,
    lookup-insert t.domain k t m,
    eq_iff t.domain j,
    eq_iff t.domain k,
    c.distinct j k r s,
    clear j r,
    clear k s,
  );
}

-- Only the lookups of a table matter to its invariant, and a part of a table keeps it.
pub part-IsConsistent :
    (m n : GoMap Tunnel)
    → ((k : String) (t : Tunnel) → lookup k n ≡ some t → lookup k m ≡ some t)
    → IsConsistent m
    → IsConsistent n
part-IsConsistent m n sub c = record {
  keyed = λ k t e. c.keyed k t (sub k t e);
  owned = λ k t e. c.owned k t (sub k t e);
  distinct = λ j k s t e f p. c.distinct j k s t (sub j s e) (sub k t f) p;
}

Creation-IsConsistent :
    (m : TunnelManager) (req : Tunnel) (w : World) (p : World × Result Tunnel)
    → Creation m req w p
    → IsConsistent w.db.tunnels
    → IsConsistent p.0.db.tunnels
unfolding set_tunnel persist
Creation-IsConsistent m req w p (done t priv_key file a) c =
    insert-IsConsistent w.db.tunnels (completed m t priv_key) c (λ e. a.has_owner (sym a.owner ∙ e))
      a.no_clash
Creation-IsConsistent m req w p (refused file r h) c = c

-- A creation, admitted or refused, leaves every tunnel under its own domain, with an owner, and no
-- port in use twice.
pub request_create_tunnel-IsConsistent :
    (m : TunnelManager) (o : Outside) (req : Tunnel) (w : World)
    → IsConsistent w.db.tunnels
    → IsConsistent (request_create_tunnel m o req w).0.db.tunnels
request_create_tunnel-IsConsistent m o req w =
    Creation-IsConsistent m req w _ (request_create_tunnel-Creation m o req w)

-- A deletion, of a tunnel that exists or not and whatever the file system answers, leaves every tunnel
-- under its own domain, with an owner, and no port in use twice.
pub remove_tunnel-IsConsistent :
    (m : TunnelManager) (o : Outside) (domain : String) (w : World)
    → IsConsistent w.db.tunnels
    → IsConsistent (remove_tunnel m o domain w).0.db.tunnels
remove_tunnel-IsConsistent m o domain w =
    part-IsConsistent w.db.tunnels _ λ k t e. ground (arith, (remove_tunnel_lem m o domain k w).0)

-- In a consistent table no request takes a domain that is in use, whoever makes it: the answer is no
-- tunnel, and the database stays as it was.
pub request_create_tunnel-taken :
    (m : TunnelManager) (o : Outside) (req : Tunnel) (w : World) (t : Tunnel)
    → IsConsistent w.db.tunnels
    → lookup req.domain w.db.tunnels ≡ some t
    → ((request_create_tunnel m o req w).0.db ≡ w.db)
      × ((u : Tunnel) → (request_create_tunnel m o req w).1 ≢ ok u)
request_create_tunnel-taken m o req w t c e =
    taken (request_create_tunnel m o req w) (request_create_tunnel-Creation m o req w)
  where
    taken :
        (p : World × Result Tunnel)
        → Creation m req w p
        → (p.0.db ≡ w.db) × ((u : Tunnel) → p.1 ≢ ok u)
    taken p (done s priv_key file a) =
        absurd ((a.no_clash req.domain t e).0 (a.domain ∙ sym (c.keyed req.domain t e)))
    taken p (refused file r h) = (refl, h)
