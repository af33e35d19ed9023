-- ===== src/WebUi/Accounts.antt =====
-- The pages for users, tokens and clients.
use boringproxy.Prelude.{String, Option, none, some, List, [], ◌∷◌, ◌==◌, if◌then◌else◌, or_zero}
use boringproxy.Prelude.GoMap.{GoMap, lookup, insert, filter}
use boringproxy.Prelude.Text.{◌⧺◌}
use boringproxy.Prelude.Result.{Result, ok, err, panic, ◌>>=◌}
use boringproxy.Http.{Request, Writer, get, parse_form, fresh_writer, refuse}
use boringproxy.Pages.{Page, confirm_page, tokens_page, clients_page, users_page}
use boringproxy.Outside.{Outside}
use boringproxy.Database.Types.{TokenData, DbClient, User}
use boringproxy.Database.Store.{Database, get_tokens, get_users, get_admin_domain}
use boringproxy.TunnelManager.Manager.{World}
use boringproxy.Api.Tokens.{api_create_token, api_delete_token}
use boringproxy.Api.Users.{api_create_user, api_delete_user}
use boringproxy.Api.Clients.{api_set_client, api_delete_client}
use boringproxy.Api.Handlers.{Served, on_db}
use boringproxy.WebUi.Reply.{Assets, execute, alert_code, show, redirect, done_or_alert}

-- The users that the pages list: all for an admin, the caller alone otherwise.
unfoldable pub visible_users : TokenData → User → Database → GoMap User
visible_users token_data user d =
    if user.is_admin then get_users d else (token_data.owner, user) ∷ []

unfoldable pub visible_tokens : TokenData → User → Database → GoMap TokenData
unfolding filter
visible_tokens token_data user d =
    if user.is_admin
    then get_tokens d
    else filter (λ token td. token_data.owner == td.owner) (get_tokens d)

-- handleUsers
unfoldable pub users_handler : Assets → Request → TokenData → User → World → Served
unfolding visible_users parse_form show redirect alert_code
users_handler a r token_data user w =
    if r.method == "GET"
    then (w, ok (show a (users_page user (visible_users token_data user w.db)) fresh_writer))
    else if r.method == "POST"
    then done_or_alert a 500 "/users" (on_db w (api_create_user token_data (parse_form r) w.db))
    else (w, ok (alert_code a 405 "Invalid method for users" "/users" fresh_writer))

abbrev pub the_only : Option (List String) → Option String
the_only (some (v ∷ [])) = some v
the_only _ = none

abbrev pub confirmed : Assets → String → String → String → String → World → Option String → Served
confirmed a invalid question url cancel_url w none = (w, ok (refuse 400 invalid fresh_writer))
confirmed a invalid question url cancel_url w (some v) =
    (w, ok (show a (confirm_page (question ⧺ v ⧺ "?") (url ⧺ v) cancel_url) fresh_writer))

-- confirmDeleteUser
unfoldable pub confirm_delete_user : Assets → Request → World → Served
unfolding lookup parse_form show refuse
confirm_delete_user a r w =
    confirmed a "Invalid username parameter" "Are you sure you want to delete user "
      "/delete-user?username=" "/users" w (the_only (lookup "username" (parse_form r)))

-- deleteUser
unfoldable pub ui_delete_user : Assets → Request → TokenData → World → Served
unfolding parse_form redirect alert_code
ui_delete_user a r token_data w =
    done_or_alert a 500 "/users" (on_db w (api_delete_user token_data (parse_form r) w.db))

abbrev pub login_url : String → String → String
login_url admin_domain token = "https://" ⧺ admin_domain ⧺ "/login?access_token=" ⧺ token

-- The loop over the tokens; the first error ends it.
unfoldable pub qr_codes : Assets → String → GoMap TokenData → Result (GoMap String)
qr_codes a admin_domain [] = ok []
qr_codes a admin_domain ((token, td) ∷ tokens) = do
  png ← a.qr_png (login_url admin_domain token)
  codes ← qr_codes a admin_domain tokens
  ok ((token, "data:image/png;base64," ⧺ a.base64 png) ∷ codes)

abbrev pub tokens_shown : Assets → TokenData → User → World → Result (GoMap String) → Served
tokens_shown a token_data user w (ok codes) = (
  w,
  ok (
      show a
        (tokens_page (visible_tokens token_data user w.db) user (visible_users token_data user w.db)
          codes)
        fresh_writer),
)
tokens_shown a token_data user w (err e) = (w, ok (alert_code a 500 e "/tokens" fresh_writer))
tokens_shown a token_data user w panic = (w, panic)

-- handleTokens
unfoldable pub tokens_handler : Assets → Outside → Request → User → TokenData → World → Served
unfolding visible_users visible_tokens qr_codes parse_form show redirect alert_code
tokens_handler a o r user token_data w =
    if r.method == "GET"
    then tokens_shown a token_data user w
        (qr_codes a (get_admin_domain w.db) (visible_tokens token_data user w.db))
    else if r.method == "POST"
    then done_or_alert a 500 "/tokens"
        (on_db w (api_create_token o.random token_data (parse_form r) w.db))
    else (w, ok (alert_code a 405 "Invalid method for tokens" "/tokens" fresh_writer))

-- confirmDeleteToken
unfoldable pub confirm_delete_token : Assets → Request → World → Served
unfolding lookup parse_form show refuse
confirm_delete_token a r w =
    confirmed a "Invalid token parameter" "Are you sure you want to delete token "
      "/delete-token?token=" "/tokens" w (the_only (lookup "token" (parse_form r)))

-- deleteToken
unfoldable pub ui_delete_token : Assets → Request → TokenData → World → Served
unfolding parse_form redirect alert_code
ui_delete_token a r token_data w =
    done_or_alert a 500 "/tokens" (on_db w (api_delete_token token_data (parse_form r) w.db))

unfoldable pub merge_clients : GoMap DbClient → GoMap DbClient → GoMap DbClient
unfolding insert
merge_clients [] clients = clients
merge_clients ((name, client) ∷ more) clients =
    let rest = merge_clients more clients in insert name client rest

-- The clients of all users that the page lists; a nil map has none.
unfoldable pub all_clients : GoMap User → GoMap DbClient
unfolding merge_clients
all_clients [] = []
all_clients ((name, user) ∷ users) =
    let rest = all_clients users in merge_clients (or_zero [] user.clients) rest

-- handleClients
unfoldable pub clients_handler : Assets → Request → User → TokenData → World → Served
unfolding visible_users all_clients parse_form show redirect alert_code
clients_handler a r user token_data w =
    if r.method == "GET"
    then (
      w,
      ok (
          show a
            (clients_page user (visible_users token_data user w.db)
              (all_clients (visible_users token_data user w.db)))
            fresh_writer),
    )
    else if r.method == "POST"
    then done_or_alert a 500 "/clients" (
        on_db w (
          api_set_client token_data (get "owner" (parse_form r)) (get "client-name" (parse_form r))
            w.db))
    else (w, ok (alert_code a 405 "Invalid method for tokens" "/tokens" fresh_writer))

abbrev pub or_alert : Assets → String → Writer × Option String → Writer
or_alert a url (w, none) = w
or_alert a url (w, some e) = alert_code a 500 e url w

-- A page, or the error of its template in an alert.
unfoldable pub show_or_alert : Assets → Page → String → Writer → Writer
unfolding execute alert_code
show_or_alert a p url w = or_alert a url (execute a p w)

-- confirmDeleteClient
unfoldable pub confirm_delete_client : Assets → Request → World → Served
unfolding parse_form show_or_alert
confirm_delete_client a r w =
    let owner = get "owner" (parse_form r) in
    let client_name = get "client-name" (parse_form r) in
    (
      w,
      ok (
          show_or_alert a
            (confirm_page
              ("Are you sure you want to delete client " ⧺ client_name ⧺ " for user " ⧺ owner ⧺ "?")
              ("/delete-client?owner=" ⧺ owner ⧺ "&client-name=" ⧺ client_name) "/clients")
            "/clients" fresh_writer),
    )

-- deleteClient
unfoldable pub ui_delete_client : Assets → Request → TokenData → World → Served
unfolding parse_form redirect alert_code
ui_delete_client a r token_data w = done_or_alert a 500 "/clients" (
    on_db w (
      api_delete_client token_data (get "owner" (parse_form r)) (get "client-name" (parse_form r))
        w.db))
