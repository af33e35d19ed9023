-- ===== src/Prelude/Text/Lines.antt =====
-- Laws of `split` and `join` at line ends.
use Prim.Native.Char.{Char, code}
use Prim.Native.String.{String}
use mathlib.Core.Path.{◌≡◌, refl, ap, ◌∙◌}
use mathlib.Core.Logic.{inl, inr}
use mathlib.Core.Bool.{Bool, true, false, ◌||◌}
use mathlib.Core.List.{List, [], ◌∷◌, tail}
use native.Mathlib.Omega.{arith}
use text.Mathlib.Text.{◌==◌}
use text.Mathlib.TextPositions.{eq_refl}
use text.Mathlib.TextLemmas.{nil-append, cons-append}
use boringproxy.Prelude.Basics.{eqb, Bool-cases, All}
use boringproxy.Prelude.Text.{◌⧺◌, split, join, Lacks, add_first, split-line, split_of_Lacks}

add_first-Lacks :
    (c : Char) (ps : List String)
    → eqb (code c) b'\n' ≡ false
    → All (Lacks b'\n') ps
    → All (Lacks b'\n') (add_first c ps)
add_first-Lacks c [] n h = ground arith
add_first-Lacks c (p ∷ ps) n h = ground arith

pub split-Lacks : (s : String) → All (Lacks b'\n') (split b'\n' s)
unfolding split
split-Lacks String.[] = (tt, tt)
split-Lacks (String.◌∷◌ c s) = elim (Bool-cases (eqb (code c) b'\n')) [
  | inl e ↦ rw e (tt, split-Lacks s)
  | inr e ↦ rw e (add_first-Lacks c (split b'\n' s) e (split-Lacks s))
]

pub split-join :
    (l : String) (ls : List String)
    → All (Lacks b'\n') (l ∷ ls)
    → split b'\n' (join "\n" (l ∷ ls)) ≡ l ∷ ls
unfolding join
split-join l [] (h, _) = split_of_Lacks b'\n' l h
split-join l (k ∷ ls) (h, hs) = split-line l _ h ∙ ap (λ ps. l ∷ ps) (split-join k ls hs)

-- The text is among the lines.
unfoldable pub lists : String → List String → Bool
lists s [] = false
lists s (l ∷ ls) = (l == s) || lists s ls

lists-add_first :
    (c : Char) (s : String) (ps : List String) → lists s (tail (add_first c ps)) ≡ lists s (tail ps)
lists-add_first c s [] = refl
lists-add_first c s (p ∷ ps) = refl

pub lists-tail : (s : String) (ps : List String) → lists s (tail ps) ≡ true → lists s ps ≡ true
unfolding lists
lists-tail s [] h = h
lists-tail s (p ∷ ps) h = ground arith

-- A text between two line ends is a line, wherever it stands.
pub lists-split :
    (a s b : String) → Lacks b'\n' s → lists s (tail (split b'\n' (a ⧺ "\n" ⧺ s ⧺ "\n" ⧺ b))) ≡ true
unfolding split lists
lists-split String.[] s b h = rw (nil-append, cons-append, nil-append, split-line s b h, eq_refl)
lists-split (String.◌∷◌ c a) s b h = rw cons-append (elim (Bool-cases (eqb (code c) b'\n')) [
  | inl e ↦ rw e (lists-tail s (split b'\n' (a ⧺ "\n" ⧺ s ⧺ "\n" ⧺ b)) (lists-split a s b h))
  | inr e ↦ rw e (lists-add_first c s (split b'\n' (a ⧺ "\n" ⧺ s ⧺ "\n" ⧺ b)) ∙ lists-split a s b h)
])
