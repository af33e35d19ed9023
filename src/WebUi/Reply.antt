-- ===== src/WebUi/Reply.antt =====
-- How the web interface answers: templates, alerts and redirects.
use boringproxy.Prelude.{ℕ, String, Bool, Option, none, some, [], ◌∷◌, if◌then◌else◌}
use boringproxy.Prelude.Result.{Result, ok, err, panic}
use boringproxy.Http.{
  Values, Writer, plain, page, part, fresh_writer, write, write_header, set_header,
}
use boringproxy.Pages.{Page, alert_page}
use boringproxy.Database.Types.{TokenData}
use boringproxy.TunnelManager.Manager.{World}
use boringproxy.Api.Handlers.{Served}

-- What the packages html/template, go-qrcode, encoding/base64, embed and namedrop answer.
pub record Assets : Type 0 where
  -- template.ParseFS: the error, if it is not nil
  pub parse : Option String
  -- ExecuteTemplate: its error, if it is not nil, and whether something was written before it
  pub fault : Page → Option String
  pub starts : Page → Bool
  -- fs.ReadFile("logo.png")
  pub logo : Result String
  -- qrcode.Encode and base64.StdEncoding.EncodeToString
  pub qr_png : String → Result String
  pub base64 : String → String
  -- namedropClient.DomainRequestLink()
  pub request_link : String

abbrev pub executed_with : Assets → Page → Writer → Option String → Writer × Option String
executed_with a p w none = (write (page p) w, none)
executed_with a p w (some e) = (if a.starts p then write (part p) w else w, some e)

-- h.tmpl.ExecuteTemplate
unfoldable pub execute : Assets → Page → Writer → Writer × Option String
unfolding write
execute a p w = executed_with a p w (a.fault p)

-- alertDialog; no caller looks at its error
unfoldable pub alert : Assets → String → String → Writer → Writer
unfolding execute
alert a message redirect_url w = (execute a (alert_page message redirect_url) w).0

-- `w.WriteHeader(code); h.alertDialog(w, r, message, redirectUrl)`
unfoldable pub alert_code : Assets → ℕ → String → String → Writer → Writer
unfolding alert write_header
alert_code a code message redirect_url w = alert a message redirect_url (write_header code w)

abbrev pub or_error : Writer × Option String → Writer
or_error (w, none) = w
or_error (w, some e) = write (plain e) (write_header 500 w)

-- A page, or the error of its template as a 500, if no status was sent yet.
unfoldable pub show : Assets → Page → Writer → Writer
unfolding execute write write_header
show a p w = or_error (execute a p w)

-- http.Redirect with status 303; the short HTML body that it writes for a GET is left out
unfoldable pub redirect : String → Writer → Writer
unfolding set_header write_header
redirect url w = write_header 303 (set_header "Location" (url ∷ []) w)

-- What a handler comes to: an answer; a creation that runs in a goroutine of its own, with the error of
-- the identifier that is still in `err`, the identifier, and the answer so far; or waiting for the
-- creation of an identifier.
pub data Outcome : Type 0 where
  answered : Result Writer → Outcome
  creating : Option String → String → TokenData → Values → Writer → Outcome
  loading : String → Writer → Outcome

abbrev pub Handled : Type 0
Handled = World × Outcome

abbrev pub answer : Served → Handled
answer (w, r) = (w, answered r)

-- A call whose error is shown in an alert, and whose success redirects.
abbrev pub done_or_alert {ℓ} : {A : Type ℓ} → Assets → ℕ → String → World × Result A → Served
done_or_alert a code url (w, ok x) = (w, ok (redirect url fresh_writer))
done_or_alert a code url (w, err e) = (w, ok (alert_code a code e url fresh_writer))
done_or_alert a code url (w, panic) = (w, panic)
