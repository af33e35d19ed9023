-- ===== src/Api/Isolation/Tunnels.antt =====
-- CreateTunnel and DeleteTunnel leave the tunnels of others alone.
use boringproxy.Prelude.{◌≡◌, refl, ◌≢◌, ◌⊎◌, String, true, false, some, arith, eq_iff, inl, inr}
use boringproxy.Prelude.GoMap.{lookup}
use boringproxy.Prelude.Result.{Result, ok, err, panic}
use boringproxy.Http.{Values, get}
use boringproxy.Outside.{Outside}
use boringproxy.Database.Types.{TokenData, Tunnel}
use boringproxy.Database.Store.{Database}
use boringproxy.TunnelManager.Manager.{TunnelManager, World, request_create_tunnel, remove_tunnel}
use boringproxy.TunnelManager.Outcome.{
  IsAtomic, added, unchanged, request_create_tunnel-IsAtomic, remove_tunnel_lem,
}
use boringproxy.TunnelManager.Invariant.{IsConsistent, request_create_tunnel-taken}
use boringproxy.Api.Requests.{tunnel_request-IsGranted}
use boringproxy.Api.Tunnels.{
  caller, tunnel_request, requested, api_create_tunnel, may_delete_tunnel, api_delete_tunnel,
  deleted,
}
use boringproxy.Api.Isolation.{Isolated, Isolated-refl, tunnels-Isolated}

IsAtomic-Isolated :
    (m : TunnelManager) (me : String) (req : Tunnel) (w w' : World) (r : Result Tunnel)
    → IsConsistent w.db.tunnels
    → req.owner ≡ me
    → ((t : Tunnel) → lookup req.domain w.db.tunnels ≡ some t → (u : Tunnel) → r ≢ ok u)
    → IsAtomic m req w w' r
    → Isolated me w.db w'.db
IsAtomic-Isolated m me req w w' _ c own free (added t dom own' _ _ found a toks users) =
    tunnels-Isolated me w.db w'.db a toks users λ k s n. (
      λ e. ground (
        arith,
        found k,
        eq_iff req.domain k,
        λ (p : lookup req.domain w.db.tunnels ≡ some s). free s p t refl,
      ),
      λ e. ground (arith, found k, eq_iff req.domain k),
    )
IsAtomic-Isolated m me req w w' _ c own free (unchanged r h same) = rw same (Isolated-refl me w.db)

module _ (token_data : TokenData) (params : Values) where
  may_delete_tunnel-owner :
      (d : Database) (t : Tunnel) (u : Unit {0})
      → (caller token_data d).is_admin ≡ false
      → may_delete_tunnel token_data params d ≡ ok u
      → lookup (get "domain" params) d.tunnels ≡ some t
      → t.owner ≡ token_data.owner
  unfolding may_delete_tunnel
  may_delete_tunnel-owner d t u low h e = ground (arith, eq_iff token_data.owner t.owner)

module _ (m : TunnelManager) (o : Outside) (token_data : TokenData) (params : Values)
    (w : World) where
  requested-Isolated :
      (req : Tunnel)
      → IsConsistent w.db.tunnels
      → req.owner ≡ token_data.owner
      → Isolated token_data.owner w.db (request_create_tunnel m o req w).0.db
  requested-Isolated req c own =
      IsAtomic-Isolated m token_data.owner req w (request_create_tunnel m o req w).0 _ c own
        (λ t e. (request_create_tunnel-taken m o req w t c e).1)
        (request_create_tunnel-IsAtomic m o req w)

  pub api_create_tunnel-Isolated :
      (caller token_data w.db).is_admin ≡ false
      → IsConsistent w.db.tunnels
      → Isolated token_data.owner w.db (api_create_tunnel m o token_data params w).0.db
  unfolding api_create_tunnel
  api_create_tunnel-Isolated low c = go (tunnel_request m.config token_data params w.db) refl
    where
      go :
          (r : Result Tunnel)
          → tunnel_request m.config token_data params w.db ≡ r
          → Isolated token_data.owner w.db (requested m o w r).0.db
      go (ok req) h =
          requested-Isolated req c
            (granted (tunnel_request-IsGranted m.config token_data params w.db req h).allowed)
        where
          granted :
              (req.owner ≡ token_data.owner) ⊎ ((caller token_data w.db).is_admin ≡ true)
              → req.owner ≡ token_data.owner
          granted (inl own) = own
          granted (inr admin) = cc
      go (err e) h = Isolated-refl token_data.owner w.db
      go panic h = Isolated-refl token_data.owner w.db

  pub api_delete_tunnel-Isolated :
      (caller token_data w.db).is_admin ≡ false
      → Isolated token_data.owner w.db (api_delete_tunnel m o token_data params w).0.db
  unfolding api_delete_tunnel
  api_delete_tunnel-Isolated low = go (may_delete_tunnel token_data params w.db) refl
    where
      go :
          (r : Result (Unit {0}))
          → may_delete_tunnel token_data params w.db ≡ r
          → Isolated token_data.owner w.db (deleted m o (get "domain" params) w r).0.db
      go (ok u) h =
          let after = (remove_tunnel m o (get "domain" params) w).0 in
          tunnels-Isolated token_data.owner w.db after.db
            (remove_tunnel_lem m o (get "domain" params) "" w).1
            (remove_tunnel_lem m o (get "domain" params) "" w).2
            (remove_tunnel_lem m o (get "domain" params) "" w).3
            λ k t n. (
              λ e. ground (
                arith,
                (remove_tunnel_lem m o (get "domain" params) k w).0,
                eq_iff (get "domain" params) k,
                may_delete_tunnel-owner token_data params w.db t u low h,
              ),
              λ e. ground (arith, (remove_tunnel_lem m o (get "domain" params) k w).0),
            )
      go (err e) h = Isolated-refl token_data.owner w.db
      go panic h = Isolated-refl token_data.owner w.db
