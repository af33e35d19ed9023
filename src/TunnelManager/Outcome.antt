-- ===== src/TunnelManager/Outcome.antt =====
-- What a creation and a deletion come to, on every path, errors of the outside included.
use boringproxy.Prelude.{
  ◌≡◌, refl, ◌≢◌, ◌⊎◌, inl, inr, String, true, Option, none, some, [], ◌∷◌, ◌==◌, if◌then◌else◌,
  arith, eq_iff, Option-cases, is_some,
}
use boringproxy.Prelude.GoMap.{GoMap, lookup, lookup-insert, lookup-delete}
use boringproxy.Prelude.Int.{eq_ℤ_of_eq}
use boringproxy.Prelude.Result.{Result, ok, err, panic, >>=-eq-ok}
use boringproxy.Outside.{Outside}
use boringproxy.Database.Types.{Tunnel}
use boringproxy.Database.Store.{Database, set_tunnel, get_tunnels, persist}
use boringproxy.TunnelManager.Manager.{
  TunnelManager, World, precheck, with_port, no_conflict, admit, completed, created, stored,
  request_create_tunnel, remove_tunnel,
}

-- No tunnel of the map has the request's domain or port.
abbrev pub NoClash : Tunnel → GoMap Tunnel → Type 0
NoClash req m =
    (k : String) (t : Tunnel)
    → lookup k m ≡ some t
    → (req.domain ≢ t.domain) × (req.tunnel_port ≢ t.tunnel_port)

no_conflict-NoClash : (req : Tunnel) (m : GoMap Tunnel) → no_conflict req m ≡ ok tt → NoClash req m
unfolding no_conflict lookup
no_conflict-NoClash req [] h k t e = cc
no_conflict-NoClash req ((j, s) ∷ m) h k t e = ground (
  arith,
  eq_iff j k,
  eq_iff req.domain s.domain,
  eq_ℤ_of_eq req.tunnel_port s.tunnel_port,
  no_conflict-NoClash req m (ground arith) k t,
)

-- What an admitted request has passed.
pub record Admitted (m : TunnelManager) (req t : Tunnel) (d : Database) : Type 0 where
  pub domain : t.domain ≡ req.domain
  pub owner : t.owner ≡ req.owner
  pub client_name : t.client_name ≡ req.client_name
  pub tls : t.tls_termination ≡ req.tls_termination
  pub has_domain : req.domain ≢ ""
  pub has_owner : req.owner ≢ ""
  pub no_clash : NoClash t d.tunnels

admit-Admitted :
    (m : TunnelManager) (o : Outside) (req t : Tunnel) (d : Database)
    → admit m o req d ≡ ok t
    → Admitted m req t d
unfolding admit
admit-Admitted m o req t d h =
    let (_, checked, rest) = >>=-eq-ok (precheck m o req) _ h in
    let (s, ported, rest') = >>=-eq-ok (with_port o req) _ rest in
    let (_, clear, done) = >>=-eq-ok (no_conflict s (get_tunnels d)) _ rest' in
    let same : s ≡ t = cc in
    record {
      domain = unfold with_port in ground arith;
      owner = unfold with_port in ground arith;
      client_name = unfold with_port in ground arith;
      tls = unfold with_port in ground arith;
      has_domain = unfold precheck in ground (arith, eq_iff req.domain "");
      has_owner = unfold precheck in ground (arith, eq_iff req.owner "");
      no_clash = rw same at (no_conflict-NoClash s (get_tunnels d) clear);
    }

-- The two ways that a creation ends: it stores the tunnel, or the data stay as they were.
pub data Creation (m : TunnelManager) (req : Tunnel) (w : World)
    : World × Result Tunnel → Type 0 where
  done :
      (t : Tunnel) (priv_key : String) (file : Option String)
      → Admitted m req t w.db
      → Creation m req w (
        record w { db = set_tunnel t.domain (completed m t priv_key) w.db; authorized_keys = file },
        ok (completed m t priv_key),
      )
  refused :
      (file : Option String) (r : Result Tunnel)
      → ((t : Tunnel) → r ≢ ok t)
      → Creation m req w (record w { authorized_keys = file }, r)

stored-Creation :
    (m : TunnelManager) (req t : Tunnel) (w : World) (r : Option String × Result String)
    → Admitted m req t w.db
    → Creation m req w (stored m t w r)
stored-Creation m req t w (file, ok priv_key) a = done t priv_key file a
stored-Creation m req t w (file, err e) a = refused file (err e) (λ t. cc)
stored-Creation m req t w (file, panic) a = refused file panic (λ t. cc)

created-Creation :
    (m : TunnelManager) (o : Outside) (req : Tunnel) (w : World) (r : Result Tunnel)
    → admit m o req w.db ≡ r
    → Creation m req w (created m o w r)
created-Creation m o req w (ok t) h = stored-Creation m req t w _ (admit-Admitted m o req t w.db h)
created-Creation m o req w (err e) h = refused w.authorized_keys (err e) (λ t. cc)
created-Creation m o req w panic h = refused w.authorized_keys panic (λ t. cc)

pub request_create_tunnel-Creation :
    (m : TunnelManager) (o : Outside) (req : Tunnel) (w : World)
    → Creation m req w (request_create_tunnel m o req w)
unfolding request_create_tunnel
request_create_tunnel-Creation m o req w = created-Creation m o req w _ refl

Creation-tls :
    (m : TunnelManager) (req t : Tunnel) (w : World) (p : World × Result Tunnel)
    → Creation m req w p
    → p.1 ≡ ok t
    → t.tls_termination ≡ req.tls_termination
Creation-tls m req t w _ (done u priv_key file a) h =
    let same : completed m u priv_key ≡ t = cc h in rw⁻¹ same a.tls
Creation-tls m req t w _ (refused file r never) h = absurd (never t h)

pub request_create_tunnel-tls :
    (m : TunnelManager) (o : Outside) (req t : Tunnel) (w : World)
    → (request_create_tunnel m o req w).1 ≡ ok t
    → t.tls_termination ≡ req.tls_termination
request_create_tunnel-tls m o req t w =
    Creation-tls m req t w (request_create_tunnel m o req w)
      (request_create_tunnel-Creation m o req w)

-- What the caller of RequestCreateTunnel can rely on after a creation.
pub data IsAtomic (m : TunnelManager) (req : Tunnel) (w w' : World) : Result Tunnel → Type 0 where
  added :
      (t : Tunnel)
      → t.domain ≡ req.domain
      → t.owner ≡ req.owner
      → t.client_name ≡ req.client_name
      → t.username ≡ m.user.username
      → ((k : String)
          → lookup k w'.db.tunnels ≡ (if req.domain == k then some t else lookup k w.db.tunnels))
      → w'.db.admin_domain ≡ w.db.admin_domain
      → w'.db.tokens ≡ w.db.tokens
      → w'.db.users ≡ w.db.users
      → IsAtomic m req w w' (ok t)
  unchanged : (r : Result Tunnel) → ((t : Tunnel) → r ≢ ok t) → w'.db ≡ w.db → IsAtomic m req w w' r

Creation-IsAtomic :
    (m : TunnelManager) (req : Tunnel) (w : World) (p : World × Result Tunnel)
    → Creation m req w p
    → IsAtomic m req w p.0 p.1
unfolding set_tunnel persist
Creation-IsAtomic m req w p (done t priv_key file a) =
    added (completed m t priv_key) a.domain a.owner a.client_name refl
      (λ k. rw (lookup-insert, a.domain)) refl refl refl
Creation-IsAtomic m req w p (refused file r h) = unchanged r h refl

-- RequestCreateTunnel is all or nothing on the database: either it returns a tunnel with the domain,
-- the owner and the client of the request, which is then found under that domain while all other
-- domains, the tokens, the users and the admin domain are as before; or it returns no tunnel and the database is
-- unchanged, whichever outside call failed.
pub request_create_tunnel-IsAtomic :
    (m : TunnelManager) (o : Outside) (req : Tunnel) (w : World)
    → IsAtomic m req w (request_create_tunnel m o req w).0 (request_create_tunnel m o req w).1
request_create_tunnel-IsAtomic m o req w =
    Creation-IsAtomic m req w _ (request_create_tunnel-Creation m o req w)

-- A deletion, whatever the file system answers: a domain with no tunnel is an error that changes
-- nothing; otherwise that domain alone is gone from the tunnels, and the admin domain, the tokens and the users stay.
pub remove_tunnel_lem :
    (m : TunnelManager) (o : Outside) (domain k : String) (w : World)
    → (lookup k (remove_tunnel m o domain w).0.db.tunnels
        ≡ (if domain == k then none else lookup k w.db.tunnels))
      × ((remove_tunnel m o domain w).0.db.admin_domain ≡ w.db.admin_domain)
      × ((remove_tunnel m o domain w).0.db.tokens ≡ w.db.tokens)
      × ((remove_tunnel m o domain w).0.db.users ≡ w.db.users)
      × ((is_some (lookup domain w.db.tunnels) ≡ true)
          ⊎ (remove_tunnel m o domain w ≡ (w, err "Tunnel doesn't exist")))
unfolding remove_tunnel persist
remove_tunnel_lem m o domain k w = elim (Option-cases (lookup domain w.db.tunnels)) [
  | inl absent ↦ rw absent (ground (arith, eq_iff domain k), refl, refl, refl, inr refl)
  | inr (t, present) ↦ rw present (lookup-delete domain k w.db.tunnels, refl, refl, refl, inl refl)
]
