-- ===== src/Prelude/Json.antt =====
-- JSON documents as package `encoding/json` builds and reads them for the program's structs: a tree,
-- with the text form left out. Member names are taken as distinct and in the exact spelling of the
-- struct tags, as in every document that the program writes. A text is valid UTF-8, which the package
-- writes and reads back as it is; in a Go string that is not, it would replace what is invalid.
use Prim.Native.String.{String}
use mathlib.Core.Path.{◌≡◌, refl}
use mathlib.Core.Bool.{Bool}
use mathlib.Core.Option.{Option, none, some}
use mathlib.Core.List.{[], ◌∷◌}
use text.Mathlib.Text.{◌==◌}
use boringproxy.Prelude.Basics.{if◌then◌else◌}
use boringproxy.Prelude.GoMap.{GoMap}
use boringproxy.Prelude.Int.{ℤ}

mutual
  pub data Json : Type 0 where
    null : Json
    bool : Bool → Json
    number : ℤ → Json
    str : String → Json
    object : Members → Json

  pub data Members : Type 0 where
    end : Members
    member : String → Json → Members → Members

-- The value of a member; a missing one is `null`, which leaves a field at its zero value.
unfoldable pub field : String → Members → Json
field k end = null
field k (member j v ms) = if j == k then v else field k ms

-- Decoding a value into a Go variable of each type; `none` is an UnmarshalTypeError.
abbrev pub as_text : Json → Option String
as_text null = some ""
as_text (str s) = some s
as_text _ = none

-- Decoding into a `bool`.
abbrev pub as_bool : Bool → Json → Option Bool
as_bool zero null = some zero
as_bool zero (bool b) = some b
as_bool zero _ = none

abbrev pub as_int : ℤ → Json → Option ℤ
as_int zero null = some zero
as_int zero (number n) = some n
as_int zero _ = none

infixl 5 ◌>>=◌
abbrev pub ◌>>=◌ {ℓ κ} : {A : Type ℓ} {B : Type κ} → Option A → (A → Option B) → Option B
none >>= f = none
some a >>= f = f a

-- The members of a `map[string]V`.
unfoldable pub encode_map {ℓ} : {V : Type ℓ} → (V → Json) → GoMap V → Members
encode_map f [] = end
encode_map f ((k, v) ∷ m) = member k (f v) (encode_map f m)

unfoldable pub decode_map {ℓ} : {V : Type ℓ} → (Json → Option V) → Members → Option (GoMap V)
decode_map f end = some []
decode_map f (member k j ms) = do v ← f j; m ← decode_map f ms; some ((k, v) ∷ m)

pub decode_map-encode_map {ℓ} :
    {V : Type ℓ} (f : V → Json) (g : Json → Option V)
    → ((v : V) → g (f v) ≡ some v)
    → (m : GoMap V) → decode_map g (encode_map f m) ≡ some m
unfolding encode_map decode_map
decode_map-encode_map f g h [] = refl
decode_map-encode_map f g h ((k, v) ∷ m) = rw (h v, decode_map-encode_map f g h m)
