-- ===== src/HttpProxy/Answers.antt =====
-- What proxyRequest answers with.
use boringproxy.Prelude.{
  ℕ, ◌≡◌, refl, ◌∙◌, inl, inr, String, true, not, Option, none, some, List, [], ◌∷◌, ◌&&◌, ltb,
  arith, Bool-cases,
}
use boringproxy.Prelude.GoMap.{lookup, filter, keep_if, lookup-insert, lookup-filter}
use boringproxy.Http.{Values, fresh_writer, sent_status, set_header, write, write_header}
use boringproxy.Utils.{string_in_array}
use boringproxy.HttpProxy.{
  Response, connection_headers, strip_connection_headers, copy_headers, answer,
}

lookup-copy_headers :
    (k : String) (hs : Values) → lookup k (copy_headers hs fresh_writer).headers ≡ lookup k hs
unfolding copy_headers set_header lookup
lookup-copy_headers k [] = refl
lookup-copy_headers k ((j, v) ∷ hs) =
    ground
      (arith, lookup-insert j k v (copy_headers hs fresh_writer).headers, lookup-copy_headers k hs)

status-copy_headers : (hs : Values) → (copy_headers hs fresh_writer).status ≡ none
unfolding copy_headers set_header
status-copy_headers [] = refl
status-copy_headers ((j, v) ∷ hs) = status-copy_headers hs

-- An answer comes back with its status and its headers; from HTTP/2 on exactly the five headers of a
-- connection are left out.
pub lookup-answer :
    (proto_major : ℕ) (response : Response) (k : String)
    → (lookup k (answer proto_major response).headers
        ≡ keep_if
            (λ v. not (ltb 1 proto_major && string_in_array k connection_headers))
            (lookup k response.headers))
      × (sent_status (answer proto_major response) ≡ response.status_code)
unfolding answer write write_header strip_connection_headers sent_status
lookup-answer proto_major response k = elim (Bool-cases (ltb 1 proto_major)) [
  | inl e ↦
      let kept =
        filter (λ (k : String) (v : List String). not (string_in_array k connection_headers))
          response.headers in
      rw e (
        lookup-copy_headers k kept
            ∙ lookup-filter (λ k v. not (string_in_array k connection_headers)) k response.headers,
        rw (status-copy_headers kept) refl,
      )
  | inr e ↦ rw e (
    lookup-copy_headers k response.headers ∙ kept_all (lookup k response.headers),
    rw (status-copy_headers response.headers) refl,
  )
]
  where
    kept_all : (o : Option (List String)) → o ≡ keep_if (λ v. true) o
    kept_all none = refl
    kept_all (some v) = refl
