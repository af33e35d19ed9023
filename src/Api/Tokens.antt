-- ===== src/Api/Tokens.antt =====
-- CreateToken, DeleteToken and GetTokens of api.go.
use boringproxy.Prelude.{
  ℕ, String, Bool, false, not, Option, none, some, ◌==◌, ◌!=◌, ◌&&◌, if◌then◌else◌, or_zero,
  is_some,
}
use boringproxy.Prelude.Text.{◌⧺◌}
use boringproxy.Prelude.GoMap.{GoMap, lookup, filter}
use boringproxy.Prelude.Result.{Result, ok, err, panic, fail_if, with_message, ◌>>◌}
use boringproxy.Http.{Values, get}
use boringproxy.Database.Types.{TokenData, User, zero_user}
use boringproxy.Database.Store.{
  Database, add_token, get_user, get_tokens, get_token_data, delete_token_data,
}
use boringproxy.Api.Tunnels.{caller}

-- A lookup in a map that may be nil.
abbrev pub has_client : String → User → Bool
has_client client user = elim user.clients [
  | none ↦ false
  | some clients ↦ is_some (lookup client clients)
]

-- `owner` of CreateToken, which is the caller where the names agree
abbrev token_owner : TokenData → String → Database → User
token_owner token_data owner_id d =
    if token_data.owner == owner_id
    then caller token_data d
    else or_zero zero_user (get_user owner_id d)

abbrev known_client : String → String → User → Result String
known_client client owner_id owner =
    if client == "any"
    then ok ""
    else if has_client client owner
    then ok client
    else err ("Client " ⧺ client ⧺ " does not exist for user " ⧺ owner_id)

-- The checks of CreateToken, and the client that the token is limited to.
unfoldable pub token_client : TokenData → Values → Database → Result String
token_client token_data params d = do
  let owner_id = get "owner" params
  fail_if (owner_id == "") "Invalid owner paramater"
  fail_if (token_data.owner != owner_id && not (caller token_data d).is_admin) "Unauthorized"
  known_client (get "client" params) owner_id (token_owner token_data owner_id d)

abbrev renamed : Database × Result String → Database × Result String
renamed (d, r) = (d, with_message "Failed to create token" r)

abbrev pub issued :
    (ℕ → ℕ → Result ℕ) → String → Database → Result String → Database × Result String
issued rand owner_id d (ok client) = renamed (add_token rand owner_id client d)
issued rand owner_id d (err e) = (d, err e)
issued rand owner_id d panic = (d, panic)

-- CreateToken
unfoldable pub api_create_token :
    (ℕ → ℕ → Result ℕ) → TokenData → Values → Database → Database × Result String
api_create_token rand token_data params d =
    issued rand (get "owner" params) d (token_client token_data params d)

abbrev deletable : TokenData → Database → Option TokenData → Result (Unit {0})
deletable token_data d none = err "Token doesn't exist"
deletable token_data d (some t) =
    fail_if (token_data.owner != t.owner && not (caller token_data d).is_admin) "Unauthorized"

unfoldable pub may_delete_token : TokenData → Values → Database → Result (Unit {0})
may_delete_token token_data params d = do
  fail_if (get "token" params == "") "Invalid token parameter"
  deletable token_data d (get_token_data (get "token" params) d)

abbrev pub revoked : String → Database → Result (Unit {0}) → Database × Result (Unit {0})
revoked token d (ok _) = (delete_token_data token d, ok tt)
revoked token d (err e) = (d, err e)
revoked token d panic = (d, panic)

-- DeleteToken
unfoldable pub api_delete_token : TokenData → Values → Database → Database × Result (Unit {0})
api_delete_token token_data params d =
    revoked (get "token" params) d (may_delete_token token_data params d)

-- GetTokens
unfoldable pub api_get_tokens : TokenData → Database → GoMap TokenData
api_get_tokens token_data d =
    filter (λ key tok. not (not (caller token_data d).is_admin && tok.owner != token_data.owner))
      (get_tokens d)
