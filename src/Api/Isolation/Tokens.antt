-- ===== src/Api/Isolation/Tokens.antt =====
-- CreateToken and DeleteToken leave the tokens of others alone; the operations on users are refused.
use boringproxy.Prelude.{
  ℕ, ◌≡◌, refl, String, false, none, some, arith, eq_iff, Bool-cases, inl, inr, is_some,
}
use boringproxy.Prelude.GoMap.{lookup, lookup-insert, lookup-delete}
use boringproxy.Prelude.Result.{Result, ok, err, panic}
use boringproxy.Http.{Values, get}
use boringproxy.Utils.{gen_random_code}
use boringproxy.Database.Types.{TokenData}
use boringproxy.Database.Store.{Database, persist, add_token, stored_token, delete_token_data}
use boringproxy.Api.Tunnels.{caller}
use boringproxy.Api.Tokens.{
  token_client, api_create_token, may_delete_token, api_delete_token, revoked, issued,
}
use boringproxy.Api.Users.{may_create_user, api_create_user, may_delete_user, api_delete_user}
use boringproxy.Api.Isolation.{Isolated, Isolated-refl, IsFresh, tokens-Isolated}

module _ (token_data : TokenData) (params : Values) where
  may_delete_token-owner :
      (d : Database) (t : TokenData) (u : Unit {0})
      → (caller token_data d).is_admin ≡ false
      → may_delete_token token_data params d ≡ ok u
      → lookup (get "token" params) d.tokens ≡ some t
      → t.owner ≡ token_data.owner
  unfolding may_delete_token
  may_delete_token-owner d t u low h e = ground (arith, eq_iff token_data.owner t.owner)

  delete_token_data-Isolated :
      (d : Database) (token : String)
      → ((t : TokenData) → lookup token d.tokens ≡ some t → t.owner ≡ token_data.owner)
      → Isolated token_data.owner d (delete_token_data token d)
  unfolding delete_token_data persist
  delete_token_data-Isolated d token own =
      tokens-Isolated token_data.owner d (delete_token_data token d) refl refl refl λ k t n. (
        λ e. ground (arith, lookup-delete token k d.tokens, eq_iff token k, own t),
        λ e. ground (arith, lookup-delete token k d.tokens),
      )

  pub api_delete_token-Isolated :
      (d : Database)
      → (caller token_data d).is_admin ≡ false
      → Isolated token_data.owner d (api_delete_token token_data params d).0
  unfolding api_delete_token
  api_delete_token-Isolated d low = go (may_delete_token token_data params d) refl
    where
      go :
          (r : Result (Unit {0}))
          → may_delete_token token_data params d ≡ r
          → Isolated token_data.owner d (revoked (get "token" params) d r).0
      go (ok u) h =
          delete_token_data-Isolated d (get "token" params)
            λ t e. may_delete_token-owner d t u low h e
      go (err e) h = Isolated-refl token_data.owner d
      go panic h = Isolated-refl token_data.owner d

  -- The client of a token that CreateToken may issue, and the owner of that token.
  token_client-owner :
      (d : Database) (client : String)
      → (caller token_data d).is_admin ≡ false
      → token_client token_data params d ≡ ok client
      → get "owner" params ≡ token_data.owner
  unfolding token_client
  token_client-owner d client low h = ground (arith, eq_iff token_data.owner (get "owner" params))

  stored_token-Isolated :
      (d : Database) (client : String) (r : Result String)
      → ((token : String) → r ≡ ok token → lookup token d.tokens ≡ none)
      → Isolated token_data.owner d (stored_token token_data.owner client d r).0
  unfolding persist
  stored_token-Isolated d client (ok token) new =
      tokens-Isolated token_data.owner d (stored_token token_data.owner client d (ok token)).0 refl
        refl refl
        λ k t n. (
          λ e. ground (
            arith,
            lookup-insert token k (record { owner = token_data.owner; client = client }) d.tokens,
            eq_iff token k,
            new token refl,
          ),
          λ e. ground (
            arith,
            lookup-insert token k (record { owner = token_data.owner; client = client }) d.tokens,
          ),
        )
  stored_token-Isolated d client (err e) new = Isolated-refl token_data.owner d
  stored_token-Isolated d client panic new = Isolated-refl token_data.owner d

  add_token-Isolated :
      (rand : ℕ → ℕ → Result ℕ) (d : Database) (client : String)
      → IsFresh rand d
      → Isolated token_data.owner d (add_token rand token_data.owner client d).0
  unfolding add_token
  add_token-Isolated rand d client new =
      elim (Bool-cases (is_some (lookup token_data.owner d.users))) [
        | inl e ↦ rw e (stored_token-Isolated d client (gen_random_code rand 32) new)
        | inr e ↦ rw e (Isolated-refl token_data.owner d)
      ]

  pub api_create_token-Isolated :
      (rand : ℕ → ℕ → Result ℕ) (d : Database)
      → (caller token_data d).is_admin ≡ false
      → IsFresh rand d
      → Isolated token_data.owner d (api_create_token rand token_data params d).0
  unfolding api_create_token
  api_create_token-Isolated rand d low new = go (token_client token_data params d) refl
    where
      go :
          (r : Result String)
          → token_client token_data params d ≡ r
          → Isolated token_data.owner d (issued rand (get "owner" params) d r).0
      go (ok client) h =
          rw (token_client-owner d client low h) (add_token-Isolated rand d client new)
      go (err e) h = Isolated-refl token_data.owner d
      go panic h = Isolated-refl token_data.owner d

  pub api_create_user-refused :
      (d : Database)
      → (caller token_data d).is_admin ≡ false
      → api_create_user token_data params d ≡ (d, err "Unauthorized")
  unfolding api_create_user may_create_user
  api_create_user-refused d low = rw low

  pub api_delete_user-refused :
      (d : Database)
      → (caller token_data d).is_admin ≡ false
      → api_delete_user token_data params d ≡ (d, err "Unauthorized")
  unfolding api_delete_user may_delete_user
  api_delete_user-refused d low = rw low
