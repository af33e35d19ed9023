-- ===== src/WebUi/Pending/Registry.antt =====
-- The server as a registry of domains: an abstract specification that knows only who holds a domain
-- and with which port, and that every step of the server implements.
use boringproxy.Prelude.{
  ◌≡◌, refl, sym, ap, ◌∙◌, eq_of_test, ne_of_test, ◌≢◌, String, Option, none, some, ◌==◌,
  if◌then◌else◌, arith, eq_iff, Bool-cases, inl, inr,
}
use boringproxy.Prelude.Int.{ℤ}
use boringproxy.Prelude.GoMap.{lookup}
use boringproxy.Prelude.Result.{Result, ok, err, panic}
use boringproxy.Http.{Values, get}
use boringproxy.Outside.{Outside}
use boringproxy.Database.Types.{TokenData, Tunnel}
use boringproxy.Database.Store.{Database}
use boringproxy.TunnelManager.Manager.{TunnelManager, World, request_create_tunnel, remove_tunnel}
use boringproxy.TunnelManager.Outcome.{
  IsAtomic, added, unchanged, request_create_tunnel-IsAtomic, remove_tunnel_lem,
}
use boringproxy.TunnelManager.Invariant.{
  IsConsistent, request_create_tunnel-IsConsistent, request_create_tunnel-taken,
}
use boringproxy.Api.Tunnels.{
  tunnel_request, requested, api_create_tunnel, may_delete_tunnel, deleted, api_delete_tunnel,
}

-- Who holds a domain, and the port that its tunnel listens on.
pub record Entry : Type 0 where
  pub owner : String
  pub port : ℤ

abbrev pub Registry : Type 0
Registry = String → Option Entry

abbrev pub entry : Option Tunnel → Option Entry
entry none = none
entry (some t) = some (record { owner = t.owner; port = t.tunnel_port })

-- The abstraction: keys, order and the rest of a tunnel are forgotten.
abbrev pub registry : Database → Registry
registry d domain = entry (lookup domain d.tunnels)

-- What a registry may do in one step: nothing, give a free domain with a free port to an owner, or
-- free a domain.
pub data Move (f g : Registry) : Type 0 where
  stay : ((k : String) → g k ≡ f k) → Move f g
  claim :
      (domain : String) (e : Entry)
      → f domain ≡ none
      → e.owner ≢ ""
      → ((k : String) (x : Entry) → f k ≡ some x → x.port ≢ e.port)
      → ((k : String) → g k ≡ (if domain == k then some e else f k))
      → Move f g
  release :
      (domain : String) → ((k : String) → g k ≡ (if domain == k then none else f k)) → Move f g

pub data Moves (f : Registry) : Registry → Type 0 where
  done : {g : Registry} → ((k : String) → g k ≡ f k) → Moves f g
  more : {g h : Registry} → Moves f g → Move g h → Moves f h

pub tunnels-Move : (d e : Database) → e.tunnels ≡ d.tunnels → Move (registry d) (registry e)
tunnels-Move d e h = stay (λ k. rw h refl)

entry-some :
    (found : Option Tunnel) (x : Entry)
    → entry found ≡ some x
    → (t : Tunnel) × (found ≡ some t) × (t.tunnel_port ≡ x.port)
entry-some none x h = cc
entry-some (some t) x h = (t, refl, cc h)

module _ (d e : Database) (domain : String) (t : Tunnel) (c : IsConsistent e.tunnels)
    (free : lookup domain d.tunnels ≡ none)
    (entries : (k : String)
      → lookup k e.tunnels ≡ (if domain == k then some t else lookup k d.tunnels)) where
  its_own : lookup domain e.tunnels ≡ some t
  its_own = entries domain ∙ ground (arith, eq_iff domain domain)

  ports_differ : (k : String) (x : Entry) → registry d k ≡ some x → x.port ≢ t.tunnel_port
  ports_differ k x h p =
      let (u, found, same) = entry-some (lookup k d.tunnels) x h in
      elim (Bool-cases (domain == k)) [
        | inl q ↦
            let clash : none ≡ some u =
              sym free ∙ ap (λ j. lookup j d.tunnels) (eq_of_test domain k q) ∙ found in
            cc clash
        | inr q ↦
            ne_of_test domain k q
              (c.distinct domain k t u its_own (entries k ∙ rw q found) (sym (same ∙ p)))
      ]

  added-Move : Move (registry d) (registry e)
  added-Move =
      claim domain (record { owner = t.owner; port = t.tunnel_port }) (rw free refl)
        (c.owned domain t its_own) ports_differ
        (λ k. elim (Bool-cases (domain == k)) [
          | inl q ↦ rw (entries k, q) refl
          | inr q ↦ rw (entries k, q) refl
        ])

free_of : (found : Option Tunnel) → ((t : Tunnel) → found ≡ some t → ⊥) → found ≡ none
free_of none h = refl
free_of (some t) h = absurd (h t refl)

IsAtomic-Move :
    (m : TunnelManager) (req : Tunnel) (w w' : World) (r : Result Tunnel)
    → IsConsistent w'.db.tunnels
    → ((t : Tunnel) → lookup req.domain w.db.tunnels ≡ some t → (u : Tunnel) → r ≢ ok u)
    → IsAtomic m req w w' r
    → Move (registry w.db) (registry w'.db)
IsAtomic-Move m req w w' _ c taken (added t d own _ _ entries _ _ _) =
    added-Move w.db w'.db req.domain t c
      (free_of (lookup req.domain w.db.tunnels) (λ u h. taken u h t refl)) entries
IsAtomic-Move m req w w' _ c free (unchanged r _ same) = stay (λ k. rw same refl)

module _ (m : TunnelManager) (o : Outside) (w : World) where
  pub request_create_tunnel-Move :
      (req : Tunnel)
      → IsConsistent w.db.tunnels
      → Move (registry w.db) (registry (request_create_tunnel m o req w).0.db)
  request_create_tunnel-Move req c =
      IsAtomic-Move m req w (request_create_tunnel m o req w).0 (request_create_tunnel m o req w).1
        (request_create_tunnel-IsConsistent m o req w c)
        (λ u h. (request_create_tunnel-taken m o req w u c h).1)
        (request_create_tunnel-IsAtomic m o req w)

  pub remove_tunnel-Move :
      (domain : String) → Move (registry w.db) (registry (remove_tunnel m o domain w).0.db)
  remove_tunnel-Move domain = release domain (λ k. elim (Bool-cases (domain == k)) [
    | inl q ↦ rw ((remove_tunnel_lem m o domain k w).0, q) refl
    | inr q ↦ rw ((remove_tunnel_lem m o domain k w).0, q) refl
  ])

module _ (m : TunnelManager) (o : Outside) (t : TokenData) (params : Values) (w : World)
    (c : IsConsistent w.db.tunnels) where
  requested-Move : (r : Result Tunnel) → Move (registry w.db) (registry (requested m o w r).0.db)
  requested-Move (ok req) = request_create_tunnel-Move m o w req c
  requested-Move (err e) = stay (λ k. refl)
  requested-Move panic = stay (λ k. refl)

  pub api_create_tunnel-Move :
      Move (registry w.db) (registry (api_create_tunnel m o t params w).0.db)
  unfolding api_create_tunnel
  api_create_tunnel-Move = requested-Move (tunnel_request m.config t params w.db)

  deleted-Move :
      (r : Result (Unit {0}))
      → Move (registry w.db) (registry (deleted m o (get "domain" params) w r).0.db)
  deleted-Move (ok _) = remove_tunnel-Move m o w (get "domain" params)
  deleted-Move (err e) = stay (λ k. refl)
  deleted-Move panic = stay (λ k. refl)

  pub api_delete_tunnel-Move :
      Move (registry w.db) (registry (api_delete_tunnel m o t params w).0.db)
  unfolding api_delete_tunnel
  api_delete_tunnel-Move = deleted-Move (may_delete_tunnel t params w.db)
