-- ===== src/WebUi/Rule.antt =====
-- One rule for what a request to the web interface may change, and for the creations that it starts.
use boringproxy.Prelude.{
  ℕ, ◌≡◌, refl, inl, inr, String, Bool, true, false, Option, none, some, ◌==◌, ◌!=◌, Bool-cases,
  if◌then◌else◌,
}
use boringproxy.Prelude.GoMap.{lookup}
use boringproxy.Prelude.Text.{has_prefix}
use boringproxy.Prelude.Result.{Result, ok, err, panic}
use boringproxy.Http.{Request, Writer, parse_form}
use boringproxy.Outside.{Outside}
use boringproxy.Utils.{extract_token, gen_random_code}
use boringproxy.Database.Types.{TokenData, User}
use boringproxy.TunnelManager.Manager.{TunnelManager, World}
use boringproxy.Api.Tunnels.{caller, api_delete_tunnel}
use boringproxy.Api.Tokens.{api_create_token, api_delete_token}
use boringproxy.Api.Users.{api_create_user, api_delete_user}
use boringproxy.Api.Clients.{api_set_client, api_delete_client}
use boringproxy.Api.Handlers.{Served, on_db}
use boringproxy.Api.Rule.{IsCaller, Leaves, stays, if-fst, empty_of_test}
use boringproxy.WebUi.Reply.{
  Assets, Outcome, answered, creating, loading, Handled, answer, done_or_alert,
}
use boringproxy.WebUi.Accounts.{
  users_handler, confirm_delete_user, ui_delete_user, tokens_handler, confirm_delete_token,
  ui_delete_token, clients_handler, confirm_delete_client, ui_delete_client, confirmed,
  tokens_shown,
}
use boringproxy.WebUi.Tunnels.{
  started, handle_create_tunnel, tunnels_handler, confirm_delete_tunnel, confirm_tunnel,
  edit_tunnel, ui_delete_tunnel, tunnel_private_key, add_token_client, tunnel_details,
}
use boringproxy.WebUi.Login.{handle_login}
use boringproxy.WebUi.Routes.{pages-OnPages}
use boringproxy.WebUi.Handler.{
  small_pages, pages, handle_loading, known_to_ui, with_ui_token, parsed, handle_web_ui_request,
}

-- What has to be shown of the calls that change something.
pub record UiKeeps (P : World → Type 0) (m : TunnelManager) (o : Outside) (r : Request) (w : World)
    : Type 0 where
  pub start : P w
  pub delete_tunnel :
      (t : TokenData) → IsCaller r w t → P (api_delete_tunnel m o t (parse_form r) w).0
  pub create_user :
      (t : TokenData) → IsCaller r w t → P (on_db w (api_create_user t (parse_form r) w.db)).0
  pub delete_user :
      (t : TokenData) → IsCaller r w t → P (on_db w (api_delete_user t (parse_form r) w.db)).0
  pub create_token :
      (t : TokenData)
      → IsCaller r w t
      → P (on_db w (api_create_token o.random t (parse_form r) w.db)).0
  pub delete_token :
      (t : TokenData) → IsCaller r w t → P (on_db w (api_delete_token t (parse_form r) w.db)).0
  pub set_client :
      (t : TokenData) (user client : String)
      → IsCaller r w t
      → P (on_db w (api_set_client t user client w.db)).0
  pub delete_client :
      (t : TokenData) (user client : String)
      → IsCaller r w t
      → P (on_db w (api_delete_client t user client w.db)).0

-- A creation that is started is one of the caller, with a token that is limited to no client, and of
-- the request's form.
abbrev pub IsAsked : Request → World → Outcome → Type 0
IsAsked r w (answered reply) = Unit
IsAsked r w (creating stale pending_id t form reply) =
    IsCaller r w t × (t.client ≡ "") × (form ≡ parse_form r)
IsAsked r w (loading pending_id reply) = Unit

pub record Leads (P : World → Type 0) (r : Request) (w : World) (p : Handled) : Type 0 where
  pub held : P p.0
  pub asked : IsAsked r w p.1

module _ (P : World → Type 0) (a : Assets) where
  done_or_alert-Leaves {ℓ} :
      {A : Type ℓ} (code : ℕ) (url : String) (p : World × Result A)
      → P p.0
      → Leaves P (done_or_alert a code url p)
  done_or_alert-Leaves code url (w, ok x) h = stays P h
  done_or_alert-Leaves code url (w, err e) h = stays P h
  done_or_alert-Leaves code url (w, panic) h = stays P h

module _ (P : World → Type 0) (r : Request) (w : World) where
  answer-Leads : (p : Served) → Leaves P p → Leads P r w (answer p)
  answer-Leads p h = record { held = h.held; asked = tt }

  if-Leads :
      (b : Bool) (x y : Handled) → Leads P r w x → Leads P r w y → Leads P r w (if b then x else y)
  if-Leads true x y h k = h
  if-Leads false x y h k = k

module _ (P : World → Type 0) (a : Assets) (m : TunnelManager) (o : Outside) (r : Request)
    (w : World) (keep : UiKeeps P m o r w) (t : TokenData) (me : IsCaller r w t) (user : User) where
  here : {reply : Result Writer} → Leaves P (w, reply)
  here = stays P keep.start

  users_handler-Leaves : Leaves P (users_handler a r t user w)
  unfolding users_handler
  users_handler-Leaves =
      if-fst P (r.method == "GET") _ _ (λ _. here)
        λ _.
          if-fst P (r.method == "POST") _ _
            (λ _. done_or_alert-Leaves P a 500 "/users" _ (keep.create_user t me)) (λ _. here)

  tokens_shown-Leaves : (codes : Result _) → Leaves P (tokens_shown a t user w codes)
  tokens_shown-Leaves (ok codes) = here
  tokens_shown-Leaves (err e) = here
  tokens_shown-Leaves panic = here

  tokens_handler-Leaves : Leaves P (tokens_handler a o r user t w)
  unfolding tokens_handler
  tokens_handler-Leaves =
      if-fst P (r.method == "GET") _ _ (λ _. tokens_shown-Leaves _)
        λ _.
          if-fst P (r.method == "POST") _ _
            (λ _. done_or_alert-Leaves P a 500 "/tokens" _ (keep.create_token t me)) (λ _. here)

  clients_handler-Leaves : Leaves P (clients_handler a r user t w)
  unfolding clients_handler
  clients_handler-Leaves =
      if-fst P (r.method == "GET") _ _ (λ _. here)
        λ _.
          if-fst P (r.method == "POST") _ _
            (λ _. done_or_alert-Leaves P a 500 "/clients" _ (keep.set_client t _ _ me)) (λ _. here)

  confirmed-Leaves :
      (invalid question url back : String) (v : Option String)
      → Leaves P (confirmed a invalid question url back w v)
  confirmed-Leaves invalid question url back none = here
  confirmed-Leaves invalid question url back (some v) = here

  confirm_tunnel-Leaves : (v : Option String) → Leaves P (confirm_tunnel a w v)
  confirm_tunnel-Leaves none = here
  confirm_tunnel-Leaves (some v) = here

  small_pages-Leaves : Leaves P (small_pages a r t user w)
  unfolding small_pages tunnel_details
  small_pages-Leaves =
      if-fst P (r.path == "/logo.png") _ _ (λ _. here)
        λ _.
          if-fst P (r.path == "/") _ _ (λ _. here)
            λ _.
              if-fst P (r.path == "/confirm-logout") _ _ (λ _. here)
                λ _.
                  if-fst P (r.path == "/logout") _ _ (λ _. here)
                    λ _.
                      if-fst P (r.path == "/alert") _ _ (λ _. here)
                        λ _.
                          if-fst P (r.path == "/takingnames") _ _ (λ _. here)
                            λ _.
                              if-fst P (has_prefix r.path "/tunnels/") _ _ (λ _. here) (λ _. here)

  module _ (free : t.client ≡ "") where
    started-Leads : (drawn : Result String) → Leads P r w (w, started a t (parse_form r) drawn)
    started-Leads (ok i) = record { held = keep.start; asked = (me, free, refl) }
    started-Leads (err e) = record { held = keep.start; asked = (me, free, refl) }
    started-Leads panic = record { held = keep.start; asked = tt }

    tunnels_handler-Leads : Leads P r w (tunnels_handler a o r t user w)
    unfolding tunnels_handler handle_create_tunnel
    tunnels_handler-Leads =
        if-Leads P r w (r.method == "POST") _ _ (started-Leads (gen_random_code o.random 16)) (
          if-Leads P r w (r.method == "GET") _ _ (answer-Leads P r w _ here)
            (answer-Leads P r w _ here))

    pages-Leads : Leads P r w (pages a m o r t user w)
    unfolding handle_login confirm_delete_tunnel edit_tunnel ui_delete_tunnel tunnel_private_key
        handle_loading confirm_delete_user ui_delete_user confirm_delete_token ui_delete_token
        confirm_delete_client ui_delete_client add_token_client
    pages-Leads = pages-OnPages (Leads P r w) a m o r t user w (record {
      login = read;
      tunnels = tunnels_handler-Leads;
      confirm_tunnel = told (confirm_tunnel-Leaves _);
      edit = read;
      remove_tunnel = told (done_or_alert-Leaves P a 400 "/tunnels" _ (keep.delete_tunnel t me));
      private_key = read;
      wait = record { held = keep.start; asked = tt };
      users = told users_handler-Leaves;
      confirm_user = told (confirmed-Leaves _ _ _ _ _);
      remove_user = told (done_or_alert-Leaves P a 500 "/users" _ (keep.delete_user t me));
      tokens = told tokens_handler-Leaves;
      clients = told clients_handler-Leaves;
      confirm_token = told (confirmed-Leaves _ _ _ _ _);
      remove_token = told (done_or_alert-Leaves P a 500 "/tokens" _ (keep.delete_token t me));
      confirm_client = read;
      remove_client =
          told (done_or_alert-Leaves P a 500 "/clients" _ (keep.delete_client t _ _ me));
      new_token = read;
      small = told small_pages-Leaves;
    })
      where
        told : {p : Served} → Leaves P p → Leads P r w (answer p)
        told {p} h = answer-Leads P r w p h

        read : {reply : Result Writer} → Leads P r w (answer (w, reply))
        read = told here

module _ (P : World → Type 0) (a : Assets) (m : TunnelManager) (o : Outside) (r : Request)
    (w : World) (keep : UiKeeps P m o r w) where
  here' : {reply : Result Writer} → Leads P r w (answer (w, reply))
  here' = answer-Leads P r w _ (stays P keep.start)

  known_to_ui-Leads :
      (token : String) (found : Option TokenData)
      → extract_token "access_token" r ≡ ok token
      → lookup token w.db.tokens ≡ found
      → Leads P r w (known_to_ui a m o r w found)
  known_to_ui-Leads token none e h = here'
  known_to_ui-Leads token (some t) e h = elim (Bool-cases (t.client != "")) [
    | inl l ↦ rw l here'
    | inr l ↦ rw l (
        pages-Leads P a m o r w keep t (record { token = token; carried = e; stored = h })
          (caller t w.db) (empty_of_test t.client l))
  ]

  with_ui_token-Leads :
      (found : Result String)
      → extract_token "access_token" r ≡ found
      → Leads P r w (with_ui_token a m o r w found)
  with_ui_token-Leads (ok token) e = known_to_ui-Leads token (lookup token w.db.tokens) e refl
  with_ui_token-Leads (err e) h = here'
  with_ui_token-Leads panic h = here'

  parsed-Leads : (e : Option String) → Leads P r w (parsed a m o r w e)
  parsed-Leads none = with_ui_token-Leads (extract_token "access_token" r) refl
  parsed-Leads (some e) = here'

  -- It is enough to look at the calls of the API's methods.
  pub handle_web_ui_request-Leads : Leads P r w (handle_web_ui_request a m o r w)
  unfolding handle_web_ui_request
  handle_web_ui_request-Leads = parsed-Leads a.parse
