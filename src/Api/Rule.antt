-- ===== src/Api/Rule.antt =====
-- One rule for what a request may change: it is enough to look at the calls that handlers make.
use boringproxy.Prelude.{
  ℕ, ◌≡◌, refl, sym, ◌∙◌, ap, ◌⊎◌, String, Bool, true, false, Option, none, some, ◌==◌, ◌!=◌, ◌&&◌,
  arith, eq_iff, if◌then◌else◌,
}
use boringproxy.Prelude.GoMap.{lookup}
use boringproxy.Prelude.Text.{has_prefix}
use boringproxy.Prelude.Result.{Result, ok, err, panic}
use boringproxy.Http.{Request, Writer, get, parse_form}
use boringproxy.Outside.{Outside}
use boringproxy.Utils.{extract_token}
use boringproxy.Database.Types.{TokenData}
use boringproxy.TunnelManager.Manager.{TunnelManager, World}
use boringproxy.Api.Tunnels.{api_create_tunnel, api_delete_tunnel}
use boringproxy.Api.Tokens.{api_create_token}
use boringproxy.Api.Users.{api_create_user}
use boringproxy.Api.Clients.{api_set_client, api_delete_client}
use boringproxy.Api.Handlers.{
  Served, known, with_token, authenticated, or_500, on_db, token_reply, get_tunnels_reply,
  handle_tunnels, handle_users, handle_tokens, manage_client, handle_clients, serve_http,
}

-- The request carries a token that the database knows, with this data.
pub record IsCaller (r : Request) (w : World) (token_data : TokenData) : Type 0 where
  pub token : String
  pub carried : extract_token "access_token" r ≡ ok token
  pub stored : lookup token w.db.tokens ≡ some token_data

some-eq : {a b : TokenData} → some a ≡ some b → a ≡ b
some-eq h = cc

ok-eq : {a b : String} → ok a ≡ ok b → a ≡ b
ok-eq h = cc

-- A request has one caller at most.
pub IsCaller-unique :
    (r : Request) (w : World) (s t : TokenData) → IsCaller r w s → IsCaller r w t → s ≡ t
IsCaller-unique r w s t c d =
    some-eq
      (sym c.stored ∙ ap (λ k. lookup k w.db.tokens) (ok-eq (sym c.carried ∙ d.carried)) ∙ d.stored)

-- What has to be shown of the calls that change something.
pub record Keeps (P : World → Type 0) (m : TunnelManager) (o : Outside) (r : Request) (w : World)
    : Type 0 where
  pub start : P w
  pub create_tunnel :
      (t : TokenData)
      → IsCaller r w t
      → t.client ≡ ""
      → P (api_create_tunnel m o t (parse_form r) w).0
  pub delete_tunnel :
      (t : TokenData)
      → IsCaller r w t
      → t.client ≡ ""
      → P (api_delete_tunnel m o t (parse_form r) w).0
  pub create_user :
      (t : TokenData)
      → IsCaller r w t
      → t.client ≡ ""
      → P (on_db w (api_create_user t (parse_form r) w.db)).0
  pub create_token :
      (t : TokenData)
      → IsCaller r w t
      → t.client ≡ ""
      → P (on_db w (api_create_token o.random t (parse_form r) w.db)).0
  pub set_client :
      (t : TokenData) (user client : String)
      → IsCaller r w t
      → (t.client ≡ "") ⊎ (t.client ≡ client)
      → P (on_db w (api_set_client t user client w.db)).0
  pub delete_client :
      (t : TokenData) (user client : String)
      → IsCaller r w t
      → (t.client ≡ "") ⊎ (t.client ≡ client)
      → P (on_db w (api_delete_client t user client w.db)).0

pub empty_of_test : (s : String) → (s != "") ≡ false → s ≡ ""
empty_of_test s h = ground (arith, eq_iff s "")

own_of_test : (s c : String) → (s != "" && s != c) ≡ false → (s ≡ "") ⊎ (s ≡ c)
own_of_test s c h = ground (arith, eq_iff s "", eq_iff s c)

-- The state that a handler leaves has the property.
pub record Leaves (P : World → Type 0) (p : Served) : Type 0 where
  pub held : P p.0

module _ (P : World → Type 0) where
  pub stays : {w : World} {r : Result Writer} → P w → Leaves P (w, r)
  stays h = record { held = h }

  or_500-fst {ℓ} :
      {A : Type ℓ} (p : World × Result A) (f : A → Writer) → P p.0 → Leaves P (or_500 p f)
  or_500-fst (w, ok a) f h = stays h
  or_500-fst (w, err e) f h = stays h
  or_500-fst (w, panic) f h = stays h

  token_reply-fst : (p : World × Result String) → P p.0 → Leaves P (token_reply p)
  token_reply-fst (w, ok a) h = stays h
  token_reply-fst (w, err e) h = stays h
  token_reply-fst (w, panic) h = stays h

  pub if-fst :
      (b : Bool) (x y : Served)
      → (b ≡ true → Leaves P x)
      → (b ≡ false → Leaves P y)
      → Leaves P (if b then x else y)
  if-fst true x y h k = h refl
  if-fst false x y h k = k refl

  module _ (missing unknown : String) (code : ℕ) (r : Request) (w : World) (k : TokenData → Served)
      (start : P w) (step : (t : TokenData) → IsCaller r w t → Leaves P (k t)) where
    known-fst :
        (token : String) (found : Option TokenData)
        → extract_token "access_token" r ≡ ok token
        → lookup token w.db.tokens ≡ found
        → Leaves P (known code unknown w found k)
    known-fst token none e h = stays start
    known-fst token (some t) e h = step t (record { token = token; carried = e; stored = h })

    with_token-fst :
        (found : Result String)
        → extract_token "access_token" r ≡ found
        → Leaves P (with_token missing code unknown w found k)
    with_token-fst (ok token) e = known-fst token (lookup token w.db.tokens) e refl
    with_token-fst (err e) h = stays start
    with_token-fst panic h = stays start

    authenticated-fst : Leaves P (authenticated missing code unknown r w k)
    authenticated-fst = with_token-fst (extract_token "access_token" r) refl

module _ (P : World → Type 0) (m : TunnelManager) (o : Outside) (r : Request) (w : World)
    (keep : Keeps P m o r w) where
  handle_tunnels-Keeps : Leaves P (handle_tunnels m o r w)
  unfolding handle_tunnels get_tunnels_reply
  handle_tunnels-Keeps =
      authenticated-fst P "No token provided" "Not authorized" 403 r w _ keep.start λ t c.
        let asked : String = get "client-name" r.query in
        if-fst P (r.method == "GET") _ _
          (λ _.
            if-fst P (asked != "" && t.client != "" && asked != t.client) _ _
              (λ _. stays P keep.start) (λ _. stays P keep.start))
          λ _.
            if-fst P (r.method == "POST") _ _
              (λ _.
                if-fst P (t.client != "") _ _ (λ _. stays P keep.start)
                  λ e. or_500-fst P _ _ (keep.create_tunnel t c (empty_of_test t.client e)))
              λ _.
                if-fst P (r.method == "DELETE") _ _
                  (λ _.
                    if-fst P (t.client != "") _ _ (λ _. stays P keep.start)
                      λ e. or_500-fst P _ _ (keep.delete_tunnel t c (empty_of_test t.client e)))
                  (λ _. stays P keep.start)

  handle_users-Keeps : Leaves P (handle_users r w)
  unfolding handle_users
  handle_users-Keeps =
      authenticated-fst P "Invalid token" "Failed to get token" 401 r w _ keep.start λ t c.
        if-fst P (t.client != "") _ _ (λ _. stays P keep.start)
          λ e.
            if-fst P (r.method == "GET") _ _ (λ _. stays P keep.start)
              λ _.
                if-fst P (r.method == "POST") _ _
                  (λ _. or_500-fst P _ _ (keep.create_user t c (empty_of_test t.client e)))
                  (λ _. stays P keep.start)

  handle_tokens-Keeps : Leaves P (handle_tokens o r w)
  unfolding handle_tokens
  handle_tokens-Keeps =
      authenticated-fst P "No token provided" "Not authorized" 403 r w _ keep.start λ t c.
        if-fst P (t.client != "") _ _ (λ _. stays P keep.start)
          λ e.
            if-fst P (r.method == "GET") _ _ (λ _. stays P keep.start)
              λ _.
                if-fst P (r.method == "POST") _ _
                  (λ _. token_reply-fst P _ (keep.create_token t c (empty_of_test t.client e)))
                  (λ _. stays P keep.start)

  manage_client-Keeps :
      (t : TokenData) (user client : String)
      → IsCaller r w t
      → Leaves P (manage_client t user client r w)
  unfolding manage_client
  manage_client-Keeps t user client c =
      if-fst P (t.client != "" && t.client != client) _ _ (λ _. stays P keep.start)
        λ e.
          let own = own_of_test t.client client e in
          if-fst P (r.method == "POST") _ _
            (λ _. or_500-fst P _ _ (keep.set_client t user client c own))
            λ _.
              if-fst P (r.method == "DELETE") _ _
                (λ _. or_500-fst P _ _ (keep.delete_client t user client c own))
                (λ _. stays P keep.start)

  handle_clients-Keeps : Leaves P (handle_clients r w)
  unfolding handle_clients
  handle_clients-Keeps =
      authenticated-fst P "No token provided" "Not authorized" 403 r w _ keep.start λ t c.
        if-fst P (get "client-name" (parse_form r) == "" && t.client == "") _ _
          (λ _. stays P keep.start) (λ _. manage_client-Keeps t _ _ c)

  serve_http-Leaves : Leaves P (serve_http m o r w)
  unfolding serve_http
  serve_http-Leaves =
      if-fst P (r.path == "/tunnels") _ _ (λ _. handle_tunnels-Keeps)
        λ _.
          if-fst P (has_prefix r.path "/users/") _ _ (λ _. handle_users-Keeps)
            λ _.
              if-fst P (has_prefix r.path "/tokens/") _ _ (λ _. handle_tokens-Keeps)
                λ _.
                  if-fst P (has_prefix r.path "/clients/") _ _ (λ _. handle_clients-Keeps)
                    λ _.
                      if-fst P (r.path == "/users") _ _ (λ _. stays P keep.start)
                        λ _.
                          if-fst P (r.path == "/tokens") _ _ (λ _. stays P keep.start)
                            λ _.
                              if-fst P (r.path == "/clients") _ _ (λ _. stays P keep.start)
                                (λ _. stays P keep.start)

  -- Every way through ServeHTTP ends in one of the calls, or changes nothing.
  pub serve_http-Keeps : P (serve_http m o r w).0
  serve_http-Keeps = serve_http-Leaves.held
