-- ===== src/WebUi/Login.antt =====
-- Logging in and out.
use boringproxy.Prelude.{ℕ, String, Option, none, some, List, [], ◌∷◌, ◌==◌, ◌*◌, if◌then◌else◌}
use boringproxy.Prelude.GoMap.{lookup}
use boringproxy.Prelude.Result.{Result, ok, panic}
use boringproxy.Http.{
  Request, Writer, Cookie, parse_form, fresh_writer, refuse, write_header, set_cookie,
}
use boringproxy.Pages.{login_page}
use boringproxy.TunnelManager.Manager.{World}
use boringproxy.Server.{authorized}
use boringproxy.Api.Handlers.{Served}
use boringproxy.WebUi.Reply.{Assets, show, redirect}

-- sendLoginPage
unfoldable pub send_login_page : Assets → ℕ → Writer → Writer
unfolding write_header show
send_login_page a code w = show a login_page (write_header code w)

abbrev pub access_cookie : String → ℕ → Cookie
access_cookie token max_age = record { name = "access_token"; value = token; max_age = max_age }

-- A year, in seconds; 0 stands for a cookie without an age.
abbrev pub login_age : ℕ
login_age = 86400 * 365

-- The token of the form is in `r.Form["access_token"]`, whose first item is taken.
abbrev pub logged_in : Assets → World → Writer → Option (List String) → Result Writer
logged_in a w reply none = ok (refuse 400 "Token required for login" reply)
logged_in a w reply (some []) = panic
logged_in a w reply (some (token ∷ tokens)) =
    if authorized token w.db
    then ok (redirect "/tunnels" (set_cookie (access_cookie token login_age) reply))
    else ok (send_login_page a 403 reply)

-- handleLogin: behind the refusal of another method there is no return
unfoldable pub handle_login : Assets → Request → World → Served
unfolding lookup parse_form refuse authorized redirect set_cookie send_login_page
handle_login a r w = (
  w,
  logged_in a w
      (if r.method == "GET"
        then fresh_writer
        else refuse 405 "Invalid method for login" fresh_writer)
      (lookup "access_token" (parse_form r)),
)

-- /logout
unfoldable pub logout : Writer
unfolding redirect set_cookie
logout = redirect "/tunnels" (set_cookie (access_cookie "" 0) fresh_writer)
