-- ===== src/WebUi/Own.antt =====
-- What a caller that is no admin is given of the database.
use boringproxy.Prelude.{
  ◌≡◌, refl, ◌∙◌, String, false, Option, none, some, [], ◌∷◌, ◌==◌, if◌then◌else◌, is_some, arith,
  eq_iff, or_zero, inl, inr, Bool-cases, ap, true, eq_of_test,
}
use boringproxy.Prelude.GoMap.{GoMap, lookup, lookup-filter, lookup-insert}
use boringproxy.Prelude.Text.{◌⧺◌}
use boringproxy.Prelude.Result.{ok, err, >>=-eq-ok}
use boringproxy.Http.{Values, get}
use boringproxy.Database.Types.{TokenData, DbClient, Tunnel}
use boringproxy.Database.Store.{Database, get_tunnel}
use boringproxy.Api.Tunnels.{caller, visible_or_fail, api_get_tunnel, api_get_tunnels}
use boringproxy.Api.Visibility.{lookup-api_get_tunnels}
use boringproxy.WebUi.Reply.{Assets}
use boringproxy.WebUi.Shown.{qr_of}
use boringproxy.WebUi.Accounts.{visible_users, visible_tokens, qr_codes, merge_clients, all_clients}

codes-eq : (x y : GoMap String) → ok x ≡ ok y → x ≡ y
codes-eq x y h = cc

some-eq : {x y : String} → some x ≡ some y → x ≡ y
some-eq h = cc

-- Each code is that of a token that the loop came to.
pub lookup-qr_codes :
    (a : Assets) (domain : String) (tokens : GoMap TokenData) (codes : GoMap String) (k s : String)
    → qr_codes a domain tokens ≡ ok codes
    → lookup k codes ≡ some s
    → (is_some (lookup k tokens) ≡ true) × (qr_of a domain k ≡ ok s)
unfolding qr_codes lookup
lookup-qr_codes a domain [] codes k s h e =
    let found : none ≡ some s = ap (lookup k) (codes-eq [] codes h) ∙ e in absurd (cc found)
lookup-qr_codes a domain ((token, td) ∷ tokens) codes k s h e =
    let (png, made, h₁) = >>=-eq-ok (a.qr_png _) _ h in
    let (rest, h₂, h₃) = >>=-eq-ok (qr_codes a domain tokens) _ h₁ in
    let code : String = "data:image/png;base64," ⧺ a.base64 png in
    let found : lookup k ((token, code) ∷ rest) ≡ some s =
      ap (lookup k) (codes-eq _ codes h₃) ∙ e in
    elim (Bool-cases (token == k)) [
      | inl same ↦
          let this : code ≡ s = some-eq (rw same at found) in
          (rw same refl, rw (← eq_of_test token k same) (rw made (ap ok this)))
      | inr other ↦
          let (listed, its) = lookup-qr_codes a domain tokens rest k s h₂ (rw other at found) in
          (rw other listed, its)
    ]

lookup-merge_clients :
    (cs ds : GoMap DbClient) (k : String)
    → lookup k (merge_clients cs ds) ≡ (if is_some (lookup k cs) then lookup k cs else lookup k ds)
unfolding merge_clients lookup
lookup-merge_clients [] ds k = refl
lookup-merge_clients ((j, c) ∷ cs) ds k =
    ground (arith, lookup-insert j k c (merge_clients cs ds), lookup-merge_clients cs ds k)

module _ (t : TokenData) (d : Database) (low : (caller t d).is_admin ≡ false) where
  pub own_users : visible_users t (caller t d) d ≡ (t.owner, caller t d) ∷ []
  unfolding visible_users
  own_users = rw low

  pub own_tunnels :
      (k : String) (tun : Tunnel) → lookup k (api_get_tunnels t d) ≡ some tun → tun.owner ≡ t.owner
  own_tunnels k tun h = ground (arith, lookup-api_get_tunnels t d k, low, eq_iff t.owner tun.owner)

  pub own_tokens :
      (k : String) (td : TokenData)
      → lookup k (visible_tokens t (caller t d) d) ≡ some td
      → td.owner ≡ t.owner
  unfolding visible_tokens
  own_tokens k td h = ground (
    arith,
    low,
    lookup-filter (λ (token : String) (td : TokenData). t.owner == td.owner) k d.tokens,
    eq_iff t.owner td.owner,
  )

  pub own_clients :
      (k : String)
      → lookup k (all_clients (visible_users t (caller t d) d))
        ≡ lookup k (or_zero [] (caller t d).clients)
  unfolding all_clients lookup
  own_clients k =
      rw own_users (ground (arith, lookup-merge_clients (or_zero [] (caller t d).clients) [] k))

  pub own_tunnel :
      (params : Values) (tun : Tunnel) → api_get_tunnel t params d ≡ ok tun → tun.owner ≡ t.owner
  unfolding api_get_tunnel
  own_tunnel params tun h = elim (Bool-cases (get "domain" params == "")) [
    | inl e ↦ let refused : err "Invalid domain parameter" ≡ ok tun = rw e at h in cc refused
    | inr e ↦ go (get_tunnel (get "domain" params) d) (rw e at h)
  ]
    where
      go :
          (found : Option Tunnel)
          → visible_or_fail t (caller t d) found ≡ ok tun
          → tun.owner ≡ t.owner
      go none h = cc
      go (some u) h = ground (arith, low, eq_iff u.owner t.owner)
