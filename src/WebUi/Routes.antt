-- ===== src/WebUi/Routes.antt =====
-- The paths of the web interface: what holds of the answer to each holds of the switch.
use boringproxy.Prelude.{Bool, true, false, ◌==◌, if◌then◌else◌}
use boringproxy.Http.{Request}
use boringproxy.Outside.{Outside}
use boringproxy.Database.Types.{TokenData, User}
use boringproxy.TunnelManager.Manager.{TunnelManager, World}
use boringproxy.Api.Handlers.{Served}
use boringproxy.WebUi.Reply.{Assets, Handled, answer}
use boringproxy.WebUi.Accounts.{
  users_handler, confirm_delete_user, ui_delete_user, tokens_handler, confirm_delete_token,
  ui_delete_token, clients_handler, confirm_delete_client, ui_delete_client,
}
use boringproxy.WebUi.Tunnels.{
  tunnels_handler, confirm_delete_tunnel, edit_tunnel, ui_delete_tunnel, tunnel_private_key,
  add_token_client,
}
use boringproxy.WebUi.Login.{handle_login}
use boringproxy.WebUi.Handler.{small_pages, account_pages, pages, handle_loading}

-- What has to be shown of the handlers.
pub record OnPages (Q : Handled → Type 0) (a : Assets) (m : TunnelManager) (o : Outside)
    (r : Request) (t : TokenData) (user : User) (w : World) : Type 0 where
  pub login : Q (answer (handle_login a r w))
  pub tunnels : Q (tunnels_handler a o r t user w)
  pub confirm_tunnel : Q (answer (confirm_delete_tunnel a r w))
  pub edit : Q (answer (edit_tunnel a r t user w))
  pub remove_tunnel : Q (answer (ui_delete_tunnel a m o r t w))
  pub private_key : Q (answer (tunnel_private_key a r t w))
  pub wait : Q (w, handle_loading a r)
  pub users : Q (answer (users_handler a r t user w))
  pub confirm_user : Q (answer (confirm_delete_user a r w))
  pub remove_user : Q (answer (ui_delete_user a r t w))
  pub tokens : Q (answer (tokens_handler a o r user t w))
  pub clients : Q (answer (clients_handler a r user t w))
  pub confirm_token : Q (answer (confirm_delete_token a r w))
  pub remove_token : Q (answer (ui_delete_token a r t w))
  pub confirm_client : Q (answer (confirm_delete_client a r w))
  pub remove_client : Q (answer (ui_delete_client a r t w))
  pub new_token : Q (answer (add_token_client a r w))
  pub small : Q (answer (small_pages a r t user w))

module _ (Q : Handled → Type 0) where
  pub if-answer :
      (b : Bool) (x y : Served) → Q (answer x) → Q (answer y) → Q (answer (if b then x else y))
  if-answer true x y h k = h
  if-answer false x y h k = k

  pub if-handled : (b : Bool) (x y : Handled) → Q x → Q y → Q (if b then x else y)
  if-handled true x y h k = h
  if-handled false x y h k = k

module _ (Q : Handled → Type 0) (a : Assets) (m : TunnelManager) (o : Outside) (r : Request)
    (t : TokenData) (user : User) (w : World) (on : OnPages Q a m o r t user w) where
  account_pages-OnPages : Q (answer (account_pages a o r t user w))
  unfolding account_pages
  account_pages-OnPages = if-answer Q (r.path == "/users") _ _ on.users (
      if-answer Q (r.path == "/confirm-delete-user") _ _ on.confirm_user (
        if-answer Q (r.path == "/delete-user") _ _ on.remove_user (
          if-answer Q (r.path == "/tokens") _ _ on.tokens (
            if-answer Q (r.path == "/clients") _ _ on.clients (
              if-answer Q (r.path == "/confirm-delete-token") _ _ on.confirm_token (
                if-answer Q (r.path == "/delete-token") _ _ on.remove_token (
                  if-answer Q (r.path == "/confirm-delete-client") _ _ on.confirm_client (
                    if-answer Q (r.path == "/delete-client") _ _ on.remove_client (
                      if-answer Q (r.path == "/add-token-client") _ _ on.new_token on.small)))))))))

  pub pages-OnPages : Q (pages a m o r t user w)
  unfolding pages
  pages-OnPages = if-handled Q (r.path == "/login") _ _ on.login (
      if-handled Q (r.path == "/tunnels") _ _ on.tunnels (
        if-handled Q (r.path == "/confirm-delete-tunnel") _ _ on.confirm_tunnel (
          if-handled Q (r.path == "/edit-tunnel") _ _ on.edit (
            if-handled Q (r.path == "/delete-tunnel") _ _ on.remove_tunnel (
              if-handled Q (r.path == "/tunnel-private-key") _ _ on.private_key
                (if-handled Q (r.path == "/loading") _ _ on.wait account_pages-OnPages))))))
