-- ===== src/WebUi/Handler.antt =====
-- handleWebUiRequest: who may use the web interface, and which path leads where.
use boringproxy.Prelude.{String, Option, none, some, [], ◌∷◌, ◌==◌, ◌!=◌, if◌then◌else◌}
use boringproxy.Prelude.Text.{◌⧺◌, has_prefix}
use boringproxy.Prelude.Result.{Result, ok, err, panic}
use boringproxy.Http.{Request, Writer, plain, get, parse_form, fresh_writer, write, set_header}
use boringproxy.Pages.{confirm_page}
use boringproxy.Outside.{Outside}
use boringproxy.Utils.{extract_token}
use boringproxy.Database.Types.{TokenData, User}
use boringproxy.Database.Store.{get_token_data}
use boringproxy.TunnelManager.Manager.{TunnelManager, World}
use boringproxy.Api.Tunnels.{caller}
use boringproxy.Api.Handlers.{Served}
use boringproxy.WebUi.Reply.{Assets, alert, alert_code, redirect, Outcome, loading, Handled, answer}
use boringproxy.WebUi.Accounts.{
  users_handler, confirm_delete_user, ui_delete_user, tokens_handler, confirm_delete_token,
  ui_delete_token, clients_handler, confirm_delete_client, ui_delete_client, show_or_alert,
}
use boringproxy.WebUi.Tunnels.{
  tunnels_handler, confirm_delete_tunnel, edit_tunnel, ui_delete_tunnel, tunnel_private_key,
  add_token_client, tunnel_details,
}
use boringproxy.WebUi.Login.{send_login_page, handle_login, logout}

-- handleLoading up to its wait; behind the refusal of another method there is no return
unfoldable pub handle_loading : Assets → Request → Outcome
unfolding parse_form alert_code
handle_loading a r = loading (get "id" (parse_form r)) (
    if r.method == "GET"
    then fresh_writer
    else alert_code a 405 "Invalid method for users" "/tunnels" fresh_writer)

abbrev pub logo_sent : Assets → Result String → Result Writer
logo_sent a (ok png) = ok (
    write (plain png) (
      set_header "Cache-Control" ("max-age=86400" ∷ [])
        (set_header "Content-Type" ("image/png" ∷ []) fresh_writer)))
logo_sent a (err e) = ok (alert_code a 500 e "/" fresh_writer)
logo_sent a panic = panic

-- The cases of the switch that stand in the handler itself or only read.
unfoldable pub small_pages : Assets → Request → TokenData → User → World → Served
unfolding parse_form alert alert_code redirect show_or_alert logout tunnel_details set_header write
small_pages a r token_data user w =
    if r.path == "/logo.png"
    then (w, logo_sent a a.logo)
    else if r.path == "/"
    then (w, ok (redirect "/tunnels" fresh_writer))
    else if r.path == "/confirm-logout"
    then (
      w,
      ok (
          show_or_alert a (confirm_page "Are you sure you want to log out?" "/logout" "/") "/"
            fresh_writer),
    )
    else if r.path == "/logout"
    then (w, ok logout)
    else if r.path == "/alert"
    then (w, ok (alert a (get "message" (parse_form r)) "/" fresh_writer))
    else if r.path == "/takingnames"
    then (w, ok (redirect a.request_link fresh_writer))
    else if has_prefix r.path "/tunnels/"
    then tunnel_details a r token_data user w
    else (w, ok (alert_code a 404 ("Unknown page " ⧺ r.path) "/tunnels" fresh_writer))

-- The cases about users, tokens and clients, or the rest.
unfoldable pub account_pages : Assets → Outside → Request → TokenData → User → World → Served
unfolding users_handler confirm_delete_user ui_delete_user tokens_handler confirm_delete_token
    ui_delete_token clients_handler confirm_delete_client ui_delete_client add_token_client
    small_pages
account_pages a o r token_data user w =
    if r.path == "/users"
    then users_handler a r token_data user w
    else if r.path == "/confirm-delete-user"
    then confirm_delete_user a r w
    else if r.path == "/delete-user"
    then ui_delete_user a r token_data w
    else if r.path == "/tokens"
    then tokens_handler a o r user token_data w
    else if r.path == "/clients"
    then clients_handler a r user token_data w
    else if r.path == "/confirm-delete-token"
    then confirm_delete_token a r w
    else if r.path == "/delete-token"
    then ui_delete_token a r token_data w
    else if r.path == "/confirm-delete-client"
    then confirm_delete_client a r w
    else if r.path == "/delete-client"
    then ui_delete_client a r token_data w
    else if r.path == "/add-token-client"
    then add_token_client a r w
    else small_pages a r token_data user w

-- The switch on the path.
unfoldable pub pages :
    Assets → TunnelManager → Outside → Request → TokenData → User → World → Handled
unfolding handle_login tunnels_handler confirm_delete_tunnel edit_tunnel ui_delete_tunnel
    tunnel_private_key handle_loading account_pages
pages a m o r token_data user w =
    if r.path == "/login"
    then answer (handle_login a r w)
    else if r.path == "/tunnels"
    then tunnels_handler a o r token_data user w
    else if r.path == "/confirm-delete-tunnel"
    then answer (confirm_delete_tunnel a r w)
    else if r.path == "/edit-tunnel"
    then answer (edit_tunnel a r token_data user w)
    else if r.path == "/delete-tunnel"
    then answer (ui_delete_tunnel a m o r token_data w)
    else if r.path == "/tunnel-private-key"
    then answer (tunnel_private_key a r token_data w)
    else if r.path == "/loading"
    then (w, handle_loading a r)
    else answer (account_pages a o r token_data user w)

abbrev pub known_to_ui :
    Assets → TunnelManager → Outside → Request → World → Option TokenData → Handled
known_to_ui a m o r w none = answer (w, ok (send_login_page a 403 fresh_writer))
known_to_ui a m o r w (some token_data) =
    if token_data.client != ""
    then answer (
      w,
      ok (
          alert_code a 403
            "This token is limited to a specific client and cannot be used for the web UI" "/"
            fresh_writer),
    )
    else pages a m o r token_data (caller token_data w.db) w

abbrev pub with_ui_token :
    Assets → TunnelManager → Outside → Request → World → Result String → Handled
with_ui_token a m o r w (ok token) = known_to_ui a m o r w (get_token_data token w.db)
with_ui_token a m o r w (err e) = answer (w, ok (send_login_page a 401 fresh_writer))
with_ui_token a m o r w panic = answer (w, panic)

abbrev pub parsed : Assets → TunnelManager → Outside → Request → World → Option String → Handled
parsed a m o r w none = with_ui_token a m o r w (extract_token "access_token" r)
parsed a m o r w (some e) = answer (w, ok fresh_writer)

-- handleWebUiRequest
unfoldable pub handle_web_ui_request : Assets → TunnelManager → Outside → Request → World → Handled
unfolding pages send_login_page alert_code
handle_web_ui_request a m o r w = parsed a m o r w a.parse
