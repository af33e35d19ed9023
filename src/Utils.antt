-- ===== src/Utils.antt =====
-- utils.go. `saveJson` is Database.Store.save_json, beside the file that it writes.
pub mod RandomCode
use Prim.Native.String
use Prim.Native.String.{len}
use boringproxy.Prelude.{
  ℕ, zero, suc, ◌+◌, String, Bool, true, false, Option, none, some, List, [], ◌∷◌, ◌==◌, ◌!=◌,
  if◌then◌else◌,
}
use boringproxy.Prelude.Int.{ℤ, atoi}
use boringproxy.Prelude.Text.{split, ◌⧺◌}
use boringproxy.Prelude.GoMap.{lookup}
use boringproxy.Prelude.Result.{Result, ok, err, panic, ◌>>=◌}
use boringproxy.Http.{Request, get}

-- parts[1], which panics where there is none
abbrev second : List String → Result String
second (a ∷ b ∷ rest) = ok b
second _ = panic

abbrev cookie_or_fail : Option String → Result String
cookie_or_fail none = err "No token found"
cookie_or_fail (some v) = ok v

-- extractToken
unfoldable pub extract_token : String → Request → Result String
unfolding get split lookup
extract_token name r =
    if get name r.query != ""
    then ok (get name r.query)
    else if get name r.headers != ""
    then ok (get name r.headers)
    else if get "Authorization" r.headers != ""
    then second (split b' ' (get "Authorization" r.headers))
    else cookie_or_fail (lookup name r.cookies)

abbrev pub chars : String
chars = "0123456789abcdefghijklmnopqrstuvwxyzABCDEFGHIJKLMNOPQRSTUVWXYZ"

-- string(s[i]) of an ASCII text, which panics out of range
unfoldable pub char_at : String → ℕ → Result String
char_at String.[] i = panic
char_at (String.◌∷◌ c s) zero = ok (String.◌∷◌ c "")
char_at (String.◌∷◌ c s) (suc i) = char_at s i

-- The loop of genRandomCode, with the rounds that are left, the number of this round and `id`.
unfoldable pub gen_from : (ℕ → ℕ → Result ℕ) → ℕ → ℕ → String → Result String
unfolding char_at
gen_from rand zero i id = ok id
gen_from rand (suc n) i id = do
  index ← rand i (len chars)
  c ← char_at chars index
  gen_from rand n (suc i) (id ⧺ c)

-- genRandomCode
unfoldable pub gen_random_code : (ℕ → ℕ → Result ℕ) → ℕ → Result String
unfolding gen_from
gen_random_code rand length = gen_from rand length 0 ""

abbrev last : String → List String → String
last p [] = p
last p (q ∷ qs) = last q qs

abbrev last_part : List String → String
last_part [] = ""
last_part (p ∷ ps) = last p ps

-- randomOpenPort: the listener's address, and the number behind its last colon
unfoldable pub random_open_port : Result String → Result ℤ
unfolding split atoi
random_open_port listen = do addr ← listen; atoi (last_part (split b':' addr))

-- stringInArray
unfoldable pub string_in_array : String → List String → Bool
string_in_array value [] = false
string_in_array value (item ∷ array) = if item == value then true else string_in_array value array
