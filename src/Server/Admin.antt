-- ===== src/Server/Admin.antt =====
-- The first admin.
use boringproxy.Prelude.{ℕ, ◌≡◌, refl, ◌∙◌, ap, eq_refl, String, true, some, [], arith}
use boringproxy.Prelude.GoMap.{lookup, insert, lookup-insert}
use boringproxy.Prelude.Result.{Result, ok}
use boringproxy.Utils.{gen_random_code}
use boringproxy.Utils.RandomCode.{Draws, gen_random_code-count}
use boringproxy.Database.Store.{Database, persist, add_user, add_token, new_user}
use boringproxy.Server.{init_admin, add_admin, initialized, authorized}

-- The database with the admin, and then with its token.
abbrev pub with_admin : Database → Database
with_admin d = persist (record d { users = insert "admin" (new_user true) d.users })

abbrev pub with_token : String → Database → Database
with_token token d =
    persist (record d { tokens = insert token (record { owner = "admin"; client = "" }) d.tokens })

add_user-first : (d : Database) → d.users ≡ [] → add_user "admin" true d ≡ (with_admin d, ok tt)
unfolding add_user lookup
add_user-first d h = rw h refl

pub has_admin : (d : Database) → lookup "admin" (with_admin d).users ≡ some (new_user true)
unfolding persist
has_admin d = ground (arith, lookup-insert "admin" "admin" (new_user true) d.users)

add_token-first :
    (rand : ℕ → ℕ → Result ℕ) (d : Database) (token : String)
    → gen_random_code rand 32 ≡ ok token
    → add_token rand "admin" "" (with_admin d) ≡ (with_token token (with_admin d), ok token)
unfolding add_token
add_token-first rand d token h = rw (has_admin d, h) refl

pub init_admin-first :
    (rand : ℕ → ℕ → Result ℕ) (d : Database) (token : String)
    → gen_random_code rand 32 ≡ ok token
    → d.users ≡ []
    → init_admin rand d ≡ ok (with_token token (with_admin d))
unfolding init_admin
init_admin-first rand d token h e =
    ap (add_admin rand d) e
    ∙ ap (λ p. initialized (add_token rand "admin" "" p.0)) (add_user-first d e)
    ∙ ap initialized (add_token-first rand d token h)

pub stored-first :
    (token : String) (d : Database)
    → lookup token (with_token token d).tokens ≡ some (record { owner = "admin"; client = "" })
unfolding persist
stored-first token d =
    rw (lookup-insert token token (record { owner = "admin"; client = "" }) d.tokens, eq_refl token)

-- On a database without users, while the random source works, startup adds the user admin, with the
-- rank of one and an empty client map, and a token that is known, belongs to it and is limited to no
-- client; the tunnels and the admin domain stay.
pub init_admin_lem :
    (rand : ℕ → ℕ → Result ℕ) (d : Database)
    → Draws rand
    → d.users ≡ []
    → (e : Database) × (token : String) × (init_admin rand d ≡ ok e)
      × (lookup "admin" e.users ≡ some (new_user true))
      × (lookup token e.tokens ≡ some (record { owner = "admin"; client = "" }))
      × (authorized token e ≡ true)
      × (e.tunnels ≡ d.tunnels)
      × (e.admin_domain ≡ d.admin_domain)
unfolding authorized persist
init_admin_lem rand d draws none_yet =
    let (token, drawn, _) = gen_random_code-count rand 32 draws in
    let held = stored-first token (with_admin d) in
    (
      with_token token (with_admin d),
      token,
      init_admin-first rand d token drawn none_yet,
      has_admin d,
      held,
      rw held refl,
      refl,
      refl,
    )
