-- ===== src/Api/Denial.antt =====
-- Requests without a token that the database knows.
use boringproxy.Prelude.{
  ℕ, ◌≡◌, refl, String, Bool, true, false, Option, none, some, ◌==◌, if◌then◌else◌,
}
use boringproxy.Prelude.GoMap.{lookup}
use boringproxy.Prelude.Text.{has_prefix}
use boringproxy.Prelude.Result.{Result, ok, err, panic}
use boringproxy.Http.{Request}
use boringproxy.Outside.{Outside}
use boringproxy.Utils.{extract_token}
use boringproxy.Database.Types.{TokenData}
use boringproxy.TunnelManager.Manager.{TunnelManager, World}
use boringproxy.Api.Handlers.{
  Served, known, with_token, authenticated, refused, moved, handle_tunnels, handle_users,
  handle_tokens, handle_clients, serve_http,
}
use boringproxy.Api.Rule.{IsCaller}

-- The texts that such a request may get, each with its status, and the places that it may be sent to.
pub data Denial : Type 0 where
  no_token invalid_token not_authorized no_token_data not_found : Denial

abbrev pub status : Denial → ℕ
status no_token = 401
status invalid_token = 401
status not_authorized = 403
status no_token_data = 401
status not_found = 404

abbrev pub text : Denial → String
text no_token = "No token provided"
text invalid_token = "Invalid token"
text not_authorized = "Not authorized"
text no_token_data = "Failed to get token"
text not_found = "404 page not found"

pub data Place : Type 0 where
  users tokens clients : Place

abbrev pub address : Place → String
address users = "/users/"
address tokens = "/tokens/"
address clients = "/clients/"

-- The state is as it was; the answer is one of the texts above with its status, a redirect to one of
-- the places above with the query of the request itself, or a dropped connection.
pub data IsDenied (r : Request) (w : World) : Served → Type 0 where
  told : (d : Denial) → IsDenied r w (refused (status d) (text d) w)
  redirected : (to : Place) → IsDenied r w (moved (address to) r.raw_query w)
  dropped : IsDenied r w (w, panic)

module _ (m : TunnelManager) (o : Outside) (r : Request) (w : World)
    (unknown : (t : TokenData) → ¬ IsCaller r w t) where
  known-IsDenied :
      (d : Denial) (k : TokenData → Served) (token : String) (found : Option TokenData)
      → extract_token "access_token" r ≡ ok token
      → lookup token w.db.tokens ≡ found
      → IsDenied r w (known (status d) (text d) w found k)
  known-IsDenied d k token none e h = told d
  known-IsDenied d k token (some t) e h =
      absurd (unknown t (record { token = token; carried = e; stored = h }))

  with_token-IsDenied :
      (missing d : Denial) (k : TokenData → Served) (found : Result String)
      → status missing ≡ 401
      → extract_token "access_token" r ≡ found
      → IsDenied r w (with_token (text missing) (status d) (text d) w found k)
  with_token-IsDenied missing d k (ok token) c e =
      known-IsDenied d k token (lookup token w.db.tokens) e refl
  with_token-IsDenied missing d k (err e) c h = rw (← c) (told missing)
  with_token-IsDenied missing d k panic c h = dropped

  authenticated-IsDenied :
      (missing d : Denial) (k : TokenData → Served)
      → status missing ≡ 401
      → IsDenied r w (authenticated (text missing) (status d) (text d) r w k)
  authenticated-IsDenied missing d k c =
      with_token-IsDenied missing d k (extract_token "access_token" r) c refl

  if-IsDenied :
      (b : Bool) (x y : Served)
      → IsDenied r w x
      → IsDenied r w y
      → IsDenied r w (if b then x else y)
  if-IsDenied true x y h k = h
  if-IsDenied false x y h k = k

  serve-IsDenied : IsDenied r w (serve_http m o r w)
  unfolding serve_http handle_tunnels handle_users handle_tokens handle_clients
  serve-IsDenied =
      if-IsDenied (r.path == "/tunnels") _ _ (authenticated-IsDenied no_token not_authorized _ refl)
        (if-IsDenied (has_prefix r.path "/users/") _ _
          (authenticated-IsDenied invalid_token no_token_data _ refl)
          (if-IsDenied (has_prefix r.path "/tokens/") _ _
            (authenticated-IsDenied no_token not_authorized _ refl)
            (if-IsDenied (has_prefix r.path "/clients/") _ _
              (authenticated-IsDenied no_token not_authorized _ refl)
              (if-IsDenied (r.path == "/users") _ _ (redirected users) (
                if-IsDenied (r.path == "/tokens") _ _ (redirected tokens) (
                  if-IsDenied (r.path == "/clients") _ _ (redirected clients) (told not_found)))))))

-- A request that carries no token known to the database changes nothing and is sent no data: it gets
-- one of five fixed texts with a status of 401, 403 or 404, a redirect to /users/, /tokens/ or
-- /clients/ with its own query, or its connection is dropped.
pub serve_http-IsDenied :
    (m : TunnelManager) (o : Outside) (r : Request) (w : World)
    → ((t : TokenData) → ¬ IsCaller r w t)
    → IsDenied r w (serve_http m o r w)
serve_http-IsDenied m o r w unknown = serve-IsDenied m o r w unknown
