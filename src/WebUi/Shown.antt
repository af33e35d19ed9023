-- ===== src/WebUi/Shown.antt =====
-- What a page shows, for a caller that is no admin; and the ways of answering.
use boringproxy.Prelude.{
  ℕ, ◌≡◌, String, Option, none, some, [], ◌∷◌, All, All-append, or_zero, is_some, true, inl, inr,
  Bool-cases,
}
use boringproxy.Prelude.GoMap.{lookup}
use boringproxy.Prelude.Text.{◌⧺◌}
use boringproxy.Prelude.Result.{Result, ok, err, panic, ◌>>=◌}
use boringproxy.Http.{
  Content, plain, json, page, part, Writer, fresh_writer, write, write_header, set_header, refuse,
}
use boringproxy.Pages.{
  Page, login_page, alert_page, confirm_page, loading_page, edit_tunnel_page, tunnels_page,
  tunnel_page, tokens_page, clients_page, users_page, add_token_client_page,
}
use boringproxy.Database.Types.{TokenData, User, Tunnel}
use boringproxy.TunnelManager.Manager.{World}
use boringproxy.WebUi.Reply.{
  Assets, Outcome, answered, creating, loading, executed_with, execute, alert, alert_code, or_error,
  show, redirect, done_or_alert,
}

-- A page shows nothing of other users: not their data, tunnels, tokens or clients, where `me` is the
-- caller with the data `user`, and the code for a token is the one that `qr` gives for it. The page for a new token's client is left out.
abbrev pub IsOwn : (String → Result String) → String → User → Page → Type 0
IsOwn qr me user login_page = Unit
IsOwn qr me user (alert_page message url) = Unit
IsOwn qr me user (confirm_page message url cancel_url) = Unit
IsOwn qr me user (loading_page url) = Unit
IsOwn qr me user (edit_tunnel_page domain user_id u users) =
    (user_id ≡ me) × (u ≡ user) × (users ≡ (me, user) ∷ [])
IsOwn qr me user (tunnels_page u tunnels) =
    (u ≡ user) × ((k : String) (t : Tunnel) → lookup k tunnels ≡ some t → t.owner ≡ me)
IsOwn qr me user (tunnel_page u t) = (u ≡ user) × (t.owner ≡ me)
IsOwn qr me user (tokens_page tokens u users codes) =
    (u ≡ user)
    × (users ≡ (me, user) ∷ [])
    × ((k : String) (t : TokenData) → lookup k tokens ≡ some t → t.owner ≡ me)
    × ((k s : String)
        → lookup k codes ≡ some s
        → (is_some (lookup k tokens) ≡ true) × (qr k ≡ ok s))
IsOwn qr me user (clients_page u users clients) =
    (u ≡ user)
    × (users ≡ (me, user) ∷ [])
    × ((k : String) → lookup k clients ≡ lookup k (or_zero [] user.clients))
IsOwn qr me user (users_page u users) = (u ≡ user) × (users ≡ (me, user) ∷ [])
IsOwn qr me user (add_token_client_page owner u) = Unit

-- The image with the login link for a token, on a server with this admin domain.
abbrev pub qr_of : Assets → String → String → Result String
qr_of a admin_domain token = do
  png ← a.qr_png ("https://" ⧺ admin_domain ⧺ "/login?access_token=" ⧺ token)
  ok ("data:image/png;base64," ⧺ a.base64 png)

abbrev pub IsOwnContent : (String → Result String) → String → User → Content → Type 0
IsOwnContent qr me user (plain s) = Unit
IsOwnContent qr me user (json doc) = Unit
IsOwnContent qr me user (page p) = IsOwn qr me user p
IsOwnContent qr me user (part p) = IsOwn qr me user p

abbrev pub IsOwnReply : (String → Result String) → String → User → Writer → Type 0
IsOwnReply qr me user w = All (IsOwnContent qr me user) w.body

abbrev pub IsOwnResult : (String → Result String) → String → User → Result Writer → Type 0
IsOwnResult qr me user (ok w) = IsOwnReply qr me user w
IsOwnResult qr me user (err e) = Unit
IsOwnResult qr me user panic = Unit

-- All that an outcome has written, or will write to.
abbrev pub IsOwnOutcome : (String → Result String) → String → User → Outcome → Type 0
IsOwnOutcome qr me user (answered r) = IsOwnResult qr me user r
IsOwnOutcome qr me user (creating stale i t form w) = IsOwnReply qr me user w
IsOwnOutcome qr me user (loading i w) = IsOwnReply qr me user w

module _ (qr : String → Result String) (me : String) (user : User) where
  pub write-IsOwn :
      (c : Content) (w : Writer)
      → IsOwnReply qr me user w
      → IsOwnContent qr me user c
      → IsOwnReply qr me user (write c w)
  unfolding write
  write-IsOwn c w h k = All-append (IsOwnContent qr me user) w.body (c ∷ []) h (k, tt)

  pub refuse-IsOwn :
      (code : ℕ) (message : String) (w : Writer)
      → IsOwnReply qr me user w
      → IsOwnReply qr me user (refuse code message w)
  unfolding refuse write_header
  refuse-IsOwn code message w h = write-IsOwn (plain message) (write_header code w) h tt

  module _ (a : Assets) where
    executed_with-IsOwn :
        (p : Page) (w : Writer) (e : Option String)
        → IsOwnReply qr me user w
        → IsOwn qr me user p
        → IsOwnReply qr me user (executed_with a p w e).0
    executed_with-IsOwn p w none h k = write-IsOwn (page p) w h k
    executed_with-IsOwn p w (some e) h k = elim (Bool-cases (a.starts p)) [
      | inl b ↦ rw b (write-IsOwn (part p) w h k)
      | inr b ↦ rw b h
    ]

    pub execute-IsOwn :
        (p : Page) (w : Writer)
        → IsOwnReply qr me user w
        → IsOwn qr me user p
        → IsOwnReply qr me user (execute a p w).0
    unfolding execute
    execute-IsOwn p w h k = executed_with-IsOwn p w (a.fault p) h k

    pub alert_code-IsOwn :
        (code : ℕ) (message url : String) (w : Writer)
        → IsOwnReply qr me user w
        → IsOwnReply qr me user (alert_code a code message url w)
    unfolding alert_code alert write_header
    alert_code-IsOwn code message url w h = execute-IsOwn (alert_page message url) _ h tt

    or_error-IsOwn :
        (q : Writer × Option String)
        → IsOwnReply qr me user q.0
        → IsOwnReply qr me user (or_error q)
    unfolding write_header
    or_error-IsOwn (w, none) h = h
    or_error-IsOwn (w, some e) h = write-IsOwn (plain e) (write_header 500 w) h tt

    pub show-IsOwn :
        (p : Page) (w : Writer)
        → IsOwnReply qr me user w
        → IsOwn qr me user p
        → IsOwnReply qr me user (show a p w)
    unfolding show
    show-IsOwn p w h k = or_error-IsOwn (execute a p w) (execute-IsOwn p w h k)

    pub done_or_alert-IsOwn {ℓ} :
        {A : Type ℓ} (code : ℕ) (url : String) (p : World × Result A)
        → IsOwnResult qr me user (done_or_alert a code url p).1
    unfolding redirect set_header write_header
    done_or_alert-IsOwn code url (w, ok x) = tt
    done_or_alert-IsOwn code url (w, err e) = alert_code-IsOwn code e url fresh_writer tt
    done_or_alert-IsOwn code url (w, panic) = tt
