-- ===== src/WebUi/Confidential.antt =====
-- What the web interface shows to a caller that is no admin.
use boringproxy.Prelude.{
  ℕ, ◌≡◌, refl, String, false, Option, none, some, List, [], ◌∷◌, ◌==◌, inl, inr, Bool-cases,
}
use boringproxy.Prelude.GoMap.{GoMap, lookup}
use boringproxy.Prelude.Text.{has_prefix}
use boringproxy.Prelude.Result.{Result, ok, err, panic}
use boringproxy.Http.{
  Request, Values, Writer, fresh_writer, parse_form, refuse, set_header, write_header, plain,
  set_cookie,
}
use boringproxy.Pages.{Page}
use boringproxy.Outside.{Outside}
use boringproxy.Utils.{gen_random_code}
use boringproxy.Database.Types.{TokenData, User, Tunnel}
use boringproxy.TunnelManager.Manager.{TunnelManager, World}
use boringproxy.Server.{authorized}
use boringproxy.Api.Tunnels.{caller, api_get_tunnel}
use boringproxy.WebUi.Reply.{Assets, alert, alert_code, execute, redirect, show, answer, Handled}
use boringproxy.WebUi.Accounts.{
  visible_tokens, users_handler, confirmed, confirm_delete_user, ui_delete_user, qr_codes,
  tokens_shown, tokens_handler, confirm_delete_token, ui_delete_token, clients_handler, or_alert,
  show_or_alert, confirm_delete_client, ui_delete_client,
}
use boringproxy.WebUi.Tunnels.{
  started, handle_create_tunnel, tunnels_handler, confirm_tunnel, confirm_delete_tunnel,
  edit_tunnel, ui_delete_tunnel, key_sent, tunnel_private_key, add_token_client, tunnel_shown,
  tunnel_of_path, tunnel_details,
}
use boringproxy.WebUi.Login.{send_login_page, logged_in, handle_login, logout}
use boringproxy.WebUi.Handler.{logo_sent, small_pages, handle_loading, pages}
use boringproxy.WebUi.Routes.{pages-OnPages, if-answer, if-handled}
use boringproxy.WebUi.Shown.{
  qr_of, IsOwn, IsOwnReply, IsOwnResult, IsOwnOutcome, write-IsOwn, refuse-IsOwn, execute-IsOwn,
  alert_code-IsOwn, show-IsOwn, done_or_alert-IsOwn,
}
use boringproxy.WebUi.Own.{
  lookup-qr_codes, own_users, own_tunnels, own_tokens, own_clients, own_tunnel,
}

module _ (a : Assets) (m : TunnelManager) (o : Outside) (r : Request) (t : TokenData) (w : World)
    (low : (caller t w.db).is_admin ≡ false) where
  abbrev me : User
  me = caller t w.db

  abbrev qr : String → Result String
  qr = qr_of a w.db.admin_domain

  abbrev Own : Handled → Type 0
  Own p = IsOwnOutcome qr t.owner me p.1

  shows : (p : Page) → IsOwn qr t.owner me p → IsOwnReply qr t.owner me (show a p fresh_writer)
  shows p h = show-IsOwn qr t.owner me a p fresh_writer tt h

  alerts :
      (code : ℕ) (message url : String)
      → IsOwnReply qr t.owner me (alert_code a code message url fresh_writer)
  alerts code message url = alert_code-IsOwn qr t.owner me a code message url fresh_writer tt

  logged_in-IsOwn :
      (reply : Writer) (tokens : Option (List String))
      → IsOwnReply qr t.owner me reply
      → IsOwnResult qr t.owner me (logged_in a w reply tokens)
  unfolding redirect set_header write_header set_cookie send_login_page
  logged_in-IsOwn reply none h = refuse-IsOwn qr t.owner me 400 _ reply h
  logged_in-IsOwn reply (some []) h = tt
  logged_in-IsOwn reply (some (token ∷ tokens)) h = elim (Bool-cases (authorized token w.db)) [
    | inl e ↦ rw e h
    | inr e ↦ rw e (show-IsOwn qr t.owner me a _ (write_header 403 reply) h tt)
  ]

  login-Own : Own (answer (handle_login a r w))
  unfolding handle_login
  login-Own = elim (Bool-cases (r.method == "GET")) [
    | inl e ↦ rw e (logged_in-IsOwn fresh_writer (lookup "access_token" (parse_form r)) tt)
    | inr e ↦ rw e (
        logged_in-IsOwn (refuse 405 "Invalid method for login" fresh_writer)
          (lookup "access_token" (parse_form r))
          (refuse-IsOwn qr t.owner me 405 "Invalid method for login" fresh_writer tt))
  ]

  started-Own : (drawn : Result String) → Own (w, started a t (parse_form r) drawn)
  started-Own (ok i) = tt
  started-Own (err e) = alerts 400 e "/tunnels"
  started-Own panic = tt

  tunnels-Own : Own (tunnels_handler a o r t me w)
  unfolding tunnels_handler handle_create_tunnel
  tunnels-Own =
      if-handled Own (r.method == "POST") _ _ (started-Own (gen_random_code o.random 16)) (
        if-handled Own (r.method == "GET") _ _ (shows _ (refl, own_tunnels t w.db low))
          (refuse-IsOwn qr t.owner me 405 "Invalid method for /tunnels" fresh_writer tt))

  confirm_tunnel-Own : (v : Option String) → Own (answer (confirm_tunnel a w v))
  confirm_tunnel-Own none = refuse-IsOwn qr t.owner me 400 _ fresh_writer tt
  confirm_tunnel-Own (some v) = execute-IsOwn qr t.owner me a _ fresh_writer tt tt

  key_sent-Own : (tun : Result Tunnel) → IsOwnResult qr t.owner me (key_sent a tun)
  unfolding set_header
  key_sent-Own (ok tun) = write-IsOwn qr t.owner me (plain tun.tunnel_private_key) _ tt tt
  key_sent-Own (err e) = alerts 400 e "/tunnels"
  key_sent-Own panic = tt

  confirmed-Own :
      (invalid question url back : String) (v : Option String)
      → Own (answer (confirmed a invalid question url back w v))
  confirmed-Own invalid question url back none = refuse-IsOwn qr t.owner me 400 _ fresh_writer tt
  confirmed-Own invalid question url back (some v) = shows _ tt

  users-Own : Own (answer (users_handler a r t me w))
  unfolding users_handler
  users-Own = if-answer Own (r.method == "GET") _ _ (shows _ (refl, own_users t w.db low)) (
      if-answer Own (r.method == "POST") _ _ (done_or_alert-IsOwn qr t.owner me a 500 "/users" _)
        (alerts 405 _ "/users"))

  tokens_shown-Own :
      (codes : Result (GoMap String))
      → qr_codes a w.db.admin_domain (visible_tokens t me w.db) ≡ codes
      → Own (answer (tokens_shown a t me w codes))
  tokens_shown-Own (ok codes) e = shows _ (
    refl,
    own_users t w.db low,
    own_tokens t w.db low,
    λ k s. lookup-qr_codes a w.db.admin_domain (visible_tokens t me w.db) codes k s e,
  )
  tokens_shown-Own (err m) e = alerts 500 m "/tokens"
  tokens_shown-Own panic e = tt

  tokens-Own : Own (answer (tokens_handler a o r me t w))
  unfolding tokens_handler
  tokens-Own = if-answer Own (r.method == "GET") _ _ (tokens_shown-Own _ refl) (
      if-answer Own (r.method == "POST") _ _ (done_or_alert-IsOwn qr t.owner me a 500 "/tokens" _)
        (alerts 405 _ "/tokens"))

  clients-Own : Own (answer (clients_handler a r me t w))
  unfolding clients_handler
  clients-Own =
      if-answer Own (r.method == "GET") _ _
        (shows _ (refl, own_users t w.db low, own_clients t w.db low))
        (if-answer Own (r.method == "POST") _ _
          (done_or_alert-IsOwn qr t.owner me a 500 "/clients" _) (alerts 405 _ "/tokens"))

  tunnel_shown-IsOwn :
      (params : Values) (tun : Result Tunnel)
      → api_get_tunnel t params w.db ≡ tun
      → IsOwnResult qr t.owner me (tunnel_shown a me tun)
  tunnel_shown-IsOwn params (ok tun) e = shows _ (refl, own_tunnel t w.db low params tun e)
  tunnel_shown-IsOwn params (err m) e = alerts 400 m "/tunnels"
  tunnel_shown-IsOwn params panic e = tt

  tunnel_of_path-IsOwn :
      (parts : List String) → IsOwnResult qr t.owner me (tunnel_of_path a r t me w parts)
  tunnel_of_path-IsOwn [] = alerts 400 _ "/tunnels"
  tunnel_of_path-IsOwn (x ∷ []) = alerts 400 _ "/tunnels"
  tunnel_of_path-IsOwn (x ∷ y ∷ []) = alerts 400 _ "/tunnels"
  tunnel_of_path-IsOwn (x ∷ y ∷ z ∷ []) = tunnel_shown-IsOwn _ _ refl
  tunnel_of_path-IsOwn (x ∷ y ∷ z ∷ v ∷ rest) = alerts 400 _ "/tunnels"

  logo_sent-IsOwn : (png : Result String) → IsOwnResult qr t.owner me (logo_sent a png)
  unfolding set_header
  logo_sent-IsOwn (ok png) = write-IsOwn qr t.owner me (plain png) _ tt tt
  logo_sent-IsOwn (err e) = alerts 500 e "/"
  logo_sent-IsOwn panic = tt

  or_alert-IsOwn :
      (url : String) (q : Writer × Option String)
      → IsOwnReply qr t.owner me q.0
      → IsOwnReply qr t.owner me (or_alert a url q)
  or_alert-IsOwn url (v, none) h = h
  or_alert-IsOwn url (v, some e) h = alert_code-IsOwn qr t.owner me a 500 e url v h

  show_or_alert-IsOwn :
      (p : Page) (url : String)
      → IsOwn qr t.owner me p
      → IsOwnReply qr t.owner me (show_or_alert a p url fresh_writer)
  unfolding show_or_alert
  show_or_alert-IsOwn p url h =
      or_alert-IsOwn url (execute a p fresh_writer)
        (execute-IsOwn qr t.owner me a p fresh_writer tt h)

  small-Own : Own (answer (small_pages a r t me w))
  unfolding small_pages tunnel_details logout redirect set_header write_header set_cookie alert
  small-Own = if-answer Own (r.path == "/logo.png") _ _ (logo_sent-IsOwn a.logo) (
      if-answer Own (r.path == "/") _ _ tt (
        if-answer Own (r.path == "/confirm-logout") _ _ (show_or_alert-IsOwn _ "/" tt) (
          if-answer Own (r.path == "/logout") _ _ tt (
            if-answer Own (r.path == "/alert") _ _
              (execute-IsOwn qr t.owner me a _ fresh_writer tt tt)
              (if-answer Own (r.path == "/takingnames") _ _ tt (
                if-answer Own (has_prefix r.path "/tunnels/") _ _ (tunnel_of_path-IsOwn _)
                  (alerts 404 _ "/tunnels")))))))

  loading-Own : Own (w, handle_loading a r)
  unfolding handle_loading
  loading-Own = elim (Bool-cases (r.method == "GET")) [
    | inl e ↦ rw e tt
    | inr e ↦ rw e (alerts 405 _ "/tunnels")
  ]

  pub pages-Own : Own (pages a m o r t me w)
  unfolding confirm_delete_tunnel edit_tunnel ui_delete_tunnel tunnel_private_key
      confirm_delete_user ui_delete_user confirm_delete_token ui_delete_token confirm_delete_client
      ui_delete_client add_token_client
  pages-Own = pages-OnPages Own a m o r t me w (record {
    login = login-Own;
    tunnels = tunnels-Own;
    confirm_tunnel = confirm_tunnel-Own _;
    edit = shows _ (refl, refl, own_users t w.db low);
    remove_tunnel = done_or_alert-IsOwn qr t.owner me a 400 "/tunnels" _;
    private_key = key_sent-Own _;
    wait = loading-Own;
    users = users-Own;
    confirm_user = confirmed-Own _ _ _ _ _;
    remove_user = done_or_alert-IsOwn qr t.owner me a 500 "/users" _;
    tokens = tokens-Own;
    clients = clients-Own;
    confirm_token = confirmed-Own _ _ _ _ _;
    remove_token = done_or_alert-IsOwn qr t.owner me a 500 "/tokens" _;
    confirm_client = show_or_alert-IsOwn _ "/clients" tt;
    remove_client = done_or_alert-IsOwn qr t.owner me a 500 "/clients" _;
    new_token = shows _ tt;
    small = small-Own;
  })
