-- ===== src/Api/Users.antt =====
-- GetUsers, CreateUser and DeleteUser of api.go.
use Prim.Native.String.{len}
use boringproxy.Prelude.{ℕ, String, Bool, not, [], ◌∷◌, ◌==◌, if◌then◌else◌, is_some, ltb}
use boringproxy.Prelude.GoMap.{GoMap}
use boringproxy.Prelude.Result.{Result, ok, err, panic, fail_if, ◌>>◌}
use boringproxy.Http.{Values, get}
use boringproxy.Database.Types.{TokenData, User}
use boringproxy.Database.Store.{
  Database, add_user, get_user, get_users, get_tokens, delete_user, delete_token_data,
}
use boringproxy.Api.Tunnels.{caller}

-- GetUsers
unfoldable pub api_get_users : TokenData → Database → GoMap User
api_get_users token_data d =
    if (caller token_data d).is_admin
    then get_users d
    else (token_data.owner, caller token_data d) ∷ []

abbrev pub min_username_len : ℕ
min_username_len = 6

unfoldable pub may_create_user : TokenData → Values → Database → Result (Unit {0})
may_create_user token_data params d = do
  fail_if (not (caller token_data d).is_admin) "Unauthorized"
  fail_if (ltb (len (get "username" params)) min_username_len)
      "Username must be at least 6 characters"

abbrev pub enrolled : Values → Database → Result (Unit {0}) → Database × Result (Unit {0})
enrolled params d (ok _) = add_user (get "username" params) (get "is-admin" params == "on") d
enrolled params d (err e) = (d, err e)
enrolled params d panic = (d, panic)

-- CreateUser
unfoldable pub api_create_user : TokenData → Values → Database → Database × Result (Unit {0})
api_create_user token_data params d = enrolled params d (may_create_user token_data params d)

unfoldable pub may_delete_user : TokenData → Values → Database → Result (Unit {0})
may_delete_user token_data params d = do
  fail_if (not (caller token_data d).is_admin) "Unauthorized"
  fail_if (get "username" params == "") "Invalid username parameter"
  fail_if (not (is_some (get_user (get "username" params) d))) "User doesn't exist"

-- `if tokenData.Owner == username { a.db.DeleteTokenData(token) }`
unfoldable pub drop_if : Bool → String → Database → Database
drop_if test token d = if test then delete_token_data token d else d

-- The loop over the tokens as they were when it began.
unfoldable pub delete_tokens_of : String → GoMap TokenData → Database → Database
delete_tokens_of username [] d = d
delete_tokens_of username ((token, t) ∷ tokens) d =
    delete_tokens_of username tokens (drop_if (t.owner == username) token d)

abbrev pub expelled : String → Database → Result (Unit {0}) → Database × Result (Unit {0})
expelled username d (ok _) =
    let d' = delete_user username d in (delete_tokens_of username (get_tokens d') d', ok tt)
expelled username d (err e) = (d, err e)
expelled username d panic = (d, panic)

-- DeleteUser
unfoldable pub api_delete_user : TokenData → Values → Database → Database × Result (Unit {0})
api_delete_user token_data params d =
    expelled (get "username" params) d (may_delete_user token_data params d)
