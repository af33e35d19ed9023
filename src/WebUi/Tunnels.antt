-- ===== src/WebUi/Tunnels.antt =====
-- The pages for tunnels.
use boringproxy.Prelude.{String, Option, none, some, List, [], ◌∷◌, ◌==◌, if◌then◌else◌, or_zero}
use boringproxy.Prelude.GoMap.{lookup, insert}
use boringproxy.Prelude.Text.{◌⧺◌, split}
use boringproxy.Prelude.Result.{Result, ok, err, panic}
use boringproxy.Http.{
  Request, Values, Writer, plain, get, parse_form, fresh_writer, refuse, write, set_header,
}
use boringproxy.Pages.{
  confirm_page, edit_tunnel_page, tunnels_page, tunnel_page, add_token_client_page, loading_page,
}
use boringproxy.Outside.{Outside}
use boringproxy.Utils.{gen_random_code}
use boringproxy.Database.Types.{TokenData, User, Tunnel, zero_user}
use boringproxy.Database.Store.{get_user}
use boringproxy.TunnelManager.Manager.{TunnelManager, World}
use boringproxy.Api.Tunnels.{api_get_tunnel, api_get_tunnels, api_delete_tunnel}
use boringproxy.Api.Handlers.{Served}
use boringproxy.WebUi.Reply.{
  Assets, alert_code, execute, show, redirect, Outcome, answered, creating, Handled, answer,
  done_or_alert,
}
use boringproxy.WebUi.Accounts.{visible_users, the_only}

-- handleCreateTunnel up to its goroutine. There is no return behind the alert about an identifier
-- that could not be drawn, so that the creation then runs under the empty identifier.
abbrev pub started : Assets → TokenData → Values → Result String → Outcome
started a token_data form (ok pending_id) = creating none pending_id token_data form fresh_writer
started a token_data form (err e) =
    creating (some e) "" token_data form (alert_code a 400 e "/tunnels" fresh_writer)
started a token_data form panic = answered panic

unfoldable pub handle_create_tunnel : Assets → Outside → Request → TokenData → Outcome
unfolding parse_form alert_code
handle_create_tunnel a o r token_data =
    started a token_data (parse_form r) (gen_random_code o.random 16)

abbrev pub with_stale : Assets → Option String → Writer → Writer
with_stale a none w = w
with_stale a (some e) w = alert_code a 500 e "/tunnels" w

-- The answer when the time is out: the error that is looked at is that of the identifier, since the
-- template's own is dropped.
unfoldable pub still_loading : Assets → Option String → String → Writer → Writer
unfolding execute alert_code
still_loading a stale pending_id w =
    with_stale a stale (execute a (loading_page ("/loading?id=" ⧺ pending_id)) w).0

-- The answer to the result of a creation, of handleCreateTunnel and of handleLoading.
unfoldable pub finished : Assets → Result Tunnel → Writer → Result Writer
unfolding redirect alert_code
finished a (ok t) w = ok (redirect "/tunnels" w)
finished a (err e) w = ok (alert_code a 400 e "/tunnels" w)
finished a panic w = panic

-- handleTunnels
unfoldable pub tunnels_handler : Assets → Outside → Request → TokenData → User → World → Handled
unfolding handle_create_tunnel show refuse
tunnels_handler a o r token_data user w =
    if r.method == "POST"
    then (w, handle_create_tunnel a o r token_data)
    else if r.method == "GET"
    then answer (w, ok (show a (tunnels_page user (api_get_tunnels token_data w.db)) fresh_writer))
    else answer (w, ok (refuse 405 "Invalid method for /tunnels" fresh_writer))

abbrev pub confirm_tunnel : Assets → World → Option String → Served
confirm_tunnel a w none = (w, ok (refuse 400 "Invalid domain parameter" fresh_writer))
confirm_tunnel a w (some domain) = (
  w,
  ok
      (execute a
        (confirm_page ("Are you sure you want to delete " ⧺ domain ⧺ "?")
          ("/delete-tunnel?domain=" ⧺ domain) "/tunnels")
        fresh_writer).0,
)

-- /confirm-delete-tunnel: the template's error is dropped
unfoldable pub confirm_delete_tunnel : Assets → Request → World → Served
unfolding lookup parse_form execute refuse
confirm_delete_tunnel a r w = confirm_tunnel a w (the_only (lookup "domain" (parse_form r)))

-- /edit-tunnel
unfoldable pub edit_tunnel : Assets → Request → TokenData → User → World → Served
unfolding visible_users parse_form show
edit_tunnel a r token_data user w = (
  w,
  ok (
      show a
        (edit_tunnel_page (get "domain" (parse_form r)) token_data.owner user
          (visible_users token_data user w.db))
        fresh_writer),
)

-- /delete-tunnel
unfoldable pub ui_delete_tunnel :
    Assets → TunnelManager → Outside → Request → TokenData → World → Served
unfolding parse_form redirect alert_code
ui_delete_tunnel a m o r token_data w =
    done_or_alert a 400 "/tunnels" (api_delete_tunnel m o token_data (parse_form r) w)

abbrev pub key_sent : Assets → Result Tunnel → Result Writer
key_sent a (ok tun) = ok (
    write (plain tun.tunnel_private_key)
      (set_header "Content-Disposition" ("attachment; filename=id_rsa" ∷ []) fresh_writer))
key_sent a (err e) = ok (alert_code a 400 e "/tunnels" fresh_writer)
key_sent a panic = panic

-- /tunnel-private-key
unfoldable pub tunnel_private_key : Assets → Request → TokenData → World → Served
unfolding parse_form alert_code set_header write
tunnel_private_key a r token_data w =
    (w, key_sent a (api_get_tunnel token_data (parse_form r) w.db))

-- /add-token-client: the owner is not compared with the caller
unfoldable pub add_token_client : Assets → Request → World → Served
unfolding parse_form show
add_token_client a r w =
    let owner = get "owner" (parse_form r) in
    (
      w,
      ok (
          show a (add_token_client_page owner (or_zero zero_user (get_user owner w.db)))
            fresh_writer),
    )

abbrev pub tunnel_shown : Assets → User → Result Tunnel → Result Writer
tunnel_shown a user (ok tunnel) = ok (show a (tunnel_page user tunnel) fresh_writer)
tunnel_shown a user (err e) = ok (alert_code a 400 e "/tunnels" fresh_writer)
tunnel_shown a user panic = panic

abbrev pub tunnel_of_path :
    Assets → Request → TokenData → User → World → List String → Result Writer
tunnel_of_path a r token_data user w (root ∷ tunnels ∷ domain ∷ []) =
    tunnel_shown a user
      (api_get_tunnel token_data (insert "domain" (domain ∷ []) (parse_form r)) w.db)
tunnel_of_path a r token_data user w _ =
    ok (alert_code a 400 "Invalid path" "/tunnels" fresh_writer)

-- A path under /tunnels/; the form's domain is set to its last part
unfoldable pub tunnel_details : Assets → Request → TokenData → User → World → Served
unfolding split parse_form insert show alert_code
tunnel_details a r token_data user w = (w, tunnel_of_path a r token_data user w (split b'/' r.path))
