-- ===== src/Prelude/GoMap.antt =====
-- Go's `map[string]V` as an association list. Iteration order is the order of the list; since
-- theorems hold for every list, they hold for every order that a `range` loop may take.
use Prim.Native.String.{String}
use mathlib.Core.Path.{◌≡◌, refl}
use mathlib.Core.Bool.{Bool}
use mathlib.Core.Option.{Option, none, some}
use mathlib.Core.List.{List, [], ◌∷◌}
use native.Mathlib.Omega.{arith}
use text.Mathlib.Text.{◌==◌}
use text.Mathlib.TextEquality.{eq_iff}
use boringproxy.Prelude.Basics.{if◌then◌else◌}

abbrev pub GoMap {ℓ} : Type ℓ → Type ℓ
GoMap V = List (String × V)

module _ {ℓ} {V : Type ℓ} where
  unfoldable pub lookup : String → GoMap V → Option V
  lookup k [] = none
  lookup k ((j, v) ∷ m) = if j == k then some v else lookup k m

  -- delete(m, k)
  unfoldable pub delete : String → GoMap V → GoMap V
  delete k [] = []
  delete k ((j, v) ∷ m) = let rest = delete k m in if j == k then rest else (j, v) ∷ rest

  -- m[k] = v
  unfoldable pub insert : String → V → GoMap V → GoMap V
  unfolding delete
  insert k v m = (k, v) ∷ delete k m

  -- No key stands in the list twice, as in every Go map.
  abbrev pub IsMap : GoMap V → Type ℓ
  IsMap [] = Unit
  IsMap ((k, v) ∷ m) = (lookup k m ≡ none) × IsMap m

  -- the entries that pass a test; `range` with `delete` of those that fail
  unfoldable pub filter : (String → V → Bool) → GoMap V → GoMap V
  unfolding delete
  filter p [] = []
  filter p ((k, v) ∷ m) = let rest = filter p m in if p k v then (k, v) ∷ rest else delete k rest

  -- m[k] = f(m[k]) for every k
  unfoldable pub map_values : (V → V) → GoMap V → GoMap V
  map_values f [] = []
  map_values f ((k, v) ∷ m) = (k, f v) ∷ map_values f m

  pub lookup-delete :
      (k j : String) (m : GoMap V) → lookup j (delete k m) ≡ (if k == j then none else lookup j m)
  unfolding lookup delete
  lookup-delete k j [] = ground arith
  lookup-delete k j ((i, v) ∷ m) =
      ground (arith, lookup-delete k j m, eq_iff i k, eq_iff i j, eq_iff k j)

  pub lookup-insert :
      (k j : String) (v : V) (m : GoMap V)
      → lookup j (insert k v m) ≡ (if k == j then some v else lookup j m)
  unfolding lookup insert
  lookup-insert k j v m = ground (arith, lookup-delete k j m)

  abbrev pub keep_if : (V → Bool) → Option V → Option V
  keep_if p none = none
  keep_if p (some v) = if p v then some v else none

  pub lookup-filter :
      (p : String → V → Bool) (k : String) (m : GoMap V)
      → lookup k (filter p m) ≡ keep_if (p k) (lookup k m)
  unfolding lookup filter
  lookup-filter p k [] = refl
  lookup-filter p k ((j, v) ∷ m) =
      ground (arith, lookup-filter p k m, lookup-delete j k (filter p m), eq_iff j k)

  abbrev pub option_map : (V → V) → Option V → Option V
  option_map f none = none
  option_map f (some v) = some (f v)

  pub lookup-map_values :
      (f : V → V) (k : String) (m : GoMap V) → lookup k (map_values f m) ≡ option_map f (lookup k m)
  unfolding lookup map_values
  lookup-map_values f k [] = refl
  lookup-map_values f k ((j, v) ∷ m) = ground (arith, lookup-map_values f k m)

pub lookup-nil {ℓ} : {V : Type ℓ} (k : String) → lookup {V = V} k [] ≡ none
unfolding lookup
lookup-nil k = refl

pub ruleset map_laws = (lookup-nil, lookup-delete, lookup-insert, lookup-filter, lookup-map_values)
