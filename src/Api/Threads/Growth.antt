-- ===== src/Api/Threads/Growth.antt =====
-- What one call of a handler does to users, tokens and tunnels.
use boringproxy.Prelude.{
  ℕ, ◌≡◌, refl, ◌∙◌, ap, sym, String, Bool, true, some, ◌==◌, ◌⊎◌, inl, inr, arith, is_some,
  Bool-cases,
}
use boringproxy.Prelude.GoMap.{lookup, lookup-insert, lookup-delete}
use boringproxy.Prelude.Result.{Result, ok, err, panic}
use boringproxy.Utils.{gen_random_code}
use boringproxy.Database.Types.{TokenData, User, Tunnel}
use boringproxy.Database.Store.{
  Database, persist, set_admin_domain, stored_token, add_token, delete_token_data, new_user,
  add_user, set_user,
}
use boringproxy.TunnelManager.Manager.{TunnelManager, World}
use boringproxy.TunnelManager.Outcome.{
  IsAtomic, added, unchanged, request_create_tunnel-IsAtomic, remove_tunnel_lem,
}
use boringproxy.TunnelManager.Invariant.{
  IsConsistent, request_create_tunnel-IsConsistent, remove_tunnel-IsConsistent,
}
use boringproxy.Api.Threads
use boringproxy.Api.Threads.{
  Call, admin_domain, new_token, drop_token, put_user, new_tunnel, drop_tunnel, perform,
}

-- No user is lost, and a new token has an owner.
pub record Grows (d e : Database) : Type 0 where
  pub users : (o : String) → is_some (lookup o d.users) ≡ true → is_some (lookup o e.users) ≡ true
  pub tokens :
      (k : String) (t : TokenData)
      → lookup k e.tokens ≡ some t
      → (lookup k d.tokens ≡ some t) ⊎ (is_some (lookup t.owner e.users) ≡ true)

same-Grows : (d e : Database) → e.tokens ≡ d.tokens → e.users ≡ d.users → Grows d e
same-Grows d e t u = record {
  users = λ o h. rw u h;
  tokens = λ k x h. inl (ap (lookup k) (sym t) ∙ h);
}

stored_token-Grows :
    (owner client : String) (d : Database) (r : Result String)
    → is_some (lookup owner d.users) ≡ true
    → Grows d (stored_token owner client d r).0
unfolding persist
stored_token-Grows owner client d (ok token) e = record {
  users = λ o h. h;
  tokens = λ k t h. elim (Bool-cases (token == k)) [
    | inl same ↦
        inr (
          ground
            (arith, lookup-insert token k (record { owner = owner; client = client }) d.tokens))
    | inr other ↦
        inl (
          ground
            (arith, lookup-insert token k (record { owner = owner; client = client }) d.tokens))
  ];
}
stored_token-Grows owner client d (err m) e = same-Grows d d refl refl
stored_token-Grows owner client d panic e = same-Grows d d refl refl

add_token-Grows :
    (rand : ℕ → ℕ → Result ℕ) (owner client : String) (d : Database)
    → Grows d (add_token rand owner client d).0
unfolding add_token
add_token-Grows rand owner client d = elim (Bool-cases (is_some (lookup owner d.users))) [
  | inl e ↦ rw e (stored_token-Grows owner client d (gen_random_code rand 32) e)
  | inr e ↦ rw e (same-Grows d d refl refl)
]

set_user-Grows : (name : String) (user : User) (d : Database) → Grows d (set_user name user d)
unfolding set_user persist
set_user-Grows name user d = record {
  users = λ o h. ground (arith, lookup-insert name o user d.users);
  tokens = λ k t h. inl h;
}

add_user-Grows : (name : String) (admin : Bool) (d : Database) → Grows d (add_user name admin d).0
unfolding add_user
add_user-Grows name admin d = elim (Bool-cases (is_some (lookup name d.users))) [
  | inl e ↦ rw e (same-Grows d d refl refl)
  | inr e ↦ rw e (unfold set_user in set_user-Grows name (new_user admin) d)
]

delete_token_data-Grows : (token : String) (d : Database) → Grows d (delete_token_data token d)
unfolding delete_token_data persist
delete_token_data-Grows token d = record {
  users = λ o h. h;
  tokens = λ k t h. inl (ground (arith, lookup-delete token k d.tokens));
}

set_admin_domain-Grows : (domain : String) (d : Database) → Grows d (set_admin_domain domain d)
unfolding set_admin_domain persist
set_admin_domain-Grows domain d = same-Grows d _ refl refl

IsAtomic-Grows :
    (m : TunnelManager) (req : Tunnel) (w w' : World) (r : Result Tunnel)
    → IsAtomic m req w w' r
    → Grows w.db w'.db
IsAtomic-Grows m req w w' _ (added t _ _ _ _ _ _ toks users) = same-Grows w.db w'.db toks users
IsAtomic-Grows m req w w' _ (unchanged r _ same) =
    same-Grows w.db w'.db (ap (λ (d : Database). d.tokens) same)
      (ap (λ (d : Database). d.users) same)

pub perform-Grows : (m : TunnelManager) (c : Call) (w : World) → Grows w.db (perform m c w).db
unfolding perform
perform-Grows m (admin_domain domain) w = set_admin_domain-Grows domain w.db
perform-Grows m (new_token rand owner client) w = add_token-Grows rand owner client w.db
perform-Grows m (drop_token token) w = delete_token_data-Grows token w.db
perform-Grows m (Threads.new_user name admin) w = add_user-Grows name admin w.db
perform-Grows m (put_user name user) w = set_user-Grows name user w.db
perform-Grows m (new_tunnel o req) w =
    IsAtomic-Grows m req w _ _ (request_create_tunnel-IsAtomic m o req w)
perform-Grows m (drop_tunnel o domain) w =
    let facts = remove_tunnel_lem m o domain "" w in same-Grows w.db _ facts.2 facts.3

add_token-tunnels :
    (rand : ℕ → ℕ → Result ℕ) (owner client : String) (d : Database)
    → (add_token rand owner client d).0.tunnels ≡ d.tunnels
unfolding add_token persist
add_token-tunnels rand owner client d = elim (Bool-cases (is_some (lookup owner d.users))) [
  | inl e ↦ rw e (go (gen_random_code rand 32))
  | inr e ↦ rw e refl
]
  where
    go : (r : Result String) → (stored_token owner client d r).0.tunnels ≡ d.tunnels
    go (ok token) = refl
    go (err m) = refl
    go panic = refl

add_user-tunnels :
    (name : String) (admin : Bool) (d : Database) → (add_user name admin d).0.tunnels ≡ d.tunnels
unfolding add_user persist
add_user-tunnels name admin d = elim (Bool-cases (is_some (lookup name d.users))) [
  | inl e ↦ rw e refl
  | inr e ↦ rw e refl
]

-- The tunnels stay, but for the two calls of the tunnel manager.
abbrev pub Touches : TunnelManager → Call → World → Type 0
Touches m (new_tunnel o req) w = Unit
Touches m (drop_tunnel o domain) w = Unit
Touches m c w = (perform m c w).db.tunnels ≡ w.db.tunnels

pub perform-Touches : (m : TunnelManager) (c : Call) (w : World) → Touches m c w
unfolding perform set_admin_domain delete_token_data set_user persist
perform-Touches m (admin_domain domain) w = refl
perform-Touches m (new_token rand owner client) w = add_token-tunnels rand owner client w.db
perform-Touches m (drop_token token) w = refl
perform-Touches m (Threads.new_user name admin) w = add_user-tunnels name admin w.db
perform-Touches m (put_user name user) w = refl
perform-Touches m (new_tunnel o req) w = tt
perform-Touches m (drop_tunnel o domain) w = tt

pub perform-IsConsistent :
    (m : TunnelManager) (c : Call) (w : World)
    → IsConsistent w.db.tunnels
    → IsConsistent (perform m c w).db.tunnels
unfolding perform set_admin_domain delete_token_data set_user persist
perform-IsConsistent m (admin_domain domain) w h = h
perform-IsConsistent m (new_token rand owner client) w h =
    rw (add_token-tunnels rand owner client w.db) h
perform-IsConsistent m (drop_token token) w h = h
perform-IsConsistent m (Threads.new_user name admin) w h = rw (add_user-tunnels name admin w.db) h
perform-IsConsistent m (put_user name user) w h = h
perform-IsConsistent m (new_tunnel o req) w h = request_create_tunnel-IsConsistent m o req w h
perform-IsConsistent m (drop_tunnel o domain) w h = remove_tunnel-IsConsistent m o domain w h
