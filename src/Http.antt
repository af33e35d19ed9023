-- ===== src/Http.antt =====
-- What the handlers use of package net/http: a request after parsing, and a response writer that
-- keeps the first status it is given. A header's name stands for its canonical form.
use boringproxy.Prelude.{
  ℕ, String, Option, none, some, List, [], ◌∷◌, ◌++◌, ◌==◌, ◌||◌, if◌then◌else◌, or_zero,
}
use boringproxy.Prelude.GoMap.{GoMap, lookup, insert}
use boringproxy.Prelude.Json.{Json}
use boringproxy.Pages.{Page}

-- `url.Values`, and the headers of a message
abbrev pub Values : Type 0
Values = GoMap (List String)

abbrev first : List String → String
first [] = ""
first (v ∷ vs) = v

-- Values.Get and Header.Get: the first value, or the empty text
unfoldable pub get : String → Values → String
unfolding lookup
get k vs = first (or_zero [] (lookup k vs))

pub record Request : Type 0 where
  pub method : String
  pub host : String
  pub path : String
  -- the query of the URL, as it stands there and parsed
  pub raw_query : String
  pub query : Values
  -- the form in the body
  pub post_form : Values
  pub headers : Values
  pub cookies : GoMap String
  pub remote_addr : String

merge : Values → Values → Values
unfolding lookup insert
merge body [] = body
merge body ((k, vs) ∷ query) =
    let rest = merge body query in insert k (or_zero [] (lookup k body) ++ vs) rest

-- r.Form after r.ParseForm(): a body's values stand before those of the query.
unfoldable pub parse_form : Request → Values
unfolding merge
parse_form r =
    if r.method == "POST" || r.method == "PUT" || r.method == "PATCH"
    then merge r.post_form r.query
    else r.query

-- What is written to a body.
pub data Content : Type 0 where
  plain : String → Content
  json : Json → Content
  -- an executed template, and what one wrote before it failed
  page : Page → Content
  part : Page → Content

-- What the handlers set of http.Cookie; all cookies are Secure and HttpOnly.
pub record Cookie : Type 0 where
  pub name : String
  pub value : String
  pub max_age : ℕ

pub record Writer : Type 0 where
  pub status : Option ℕ
  pub headers : Values
  pub cookies : List Cookie
  pub body : List Content

abbrev pub fresh_writer : Writer
fresh_writer = record { status = none; headers = []; cookies = []; body = [] }

abbrev first_status : ℕ → Option ℕ → Option ℕ
first_status code none = some code
first_status code (some c) = some c

-- w.WriteHeader: a second call is ignored
unfoldable pub write_header : ℕ → Writer → Writer
write_header code w = record w { status = first_status code w.status }

-- w.Write: without a status yet it is 200
unfoldable pub write : Content → Writer → Writer
write c w = record w { status = first_status 200 w.status; body = w.body ++ c ∷ [] }

-- w.Header()[k] = vs
unfoldable pub set_header : String → List String → Writer → Writer
unfolding insert
set_header k vs w = record w { headers = insert k vs w.headers }

-- http.SetCookie
unfoldable pub set_cookie : Cookie → Writer → Writer
set_cookie cookie w = record w { cookies = w.cookies ++ cookie ∷ [] }

-- A status and a text, as most refusals are written.
unfoldable pub refuse : ℕ → String → Writer → Writer
unfolding write write_header
refuse code message w = write (plain message) (write_header code w)

-- The status that the client sees; net/http sends 200 where the handler set none.
unfoldable pub sent_status : Writer → ℕ
sent_status w = or_zero 200 w.status
