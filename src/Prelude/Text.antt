-- ===== src/Prelude/Text.antt =====
-- The parts of package `strings` that the program uses, with their laws. A separator is one
-- character, given by its code.
pub mod Lines
use Prim.Native.Nat.{ℕ, suc}
use Prim.Native.Char.{Char, code}
use Prim.Native.String
use Prim.Native.String.{String}
use mathlib.Core.Path.{◌≡◌, refl, ap, ◌∙◌, sym}
use mathlib.Core.Logic.{◌≢◌}
use mathlib.Core.Bool.{Bool, true, false, ◌&&◌, ◌||◌}
use mathlib.Core.List.{List, [], ◌∷◌, ◌++◌}
use native.Mathlib.Omega.{arith}
use text.Mathlib.TextLemmas.{nil-append, cons-append, append_assoc}
use boringproxy.Prelude.Basics.{leb, eqb, if◌then◌else◌, All}

infixr 60 ◌⧺◌
-- Concatenation of texts.
abbrev pub ◌⧺◌ : String → String → String
s ⧺ t = String.◌++◌ s t

-- strings.HasPrefix(s, prefix)
unfoldable pub has_prefix : String → String → Bool
has_prefix s String.[] = true
has_prefix String.[] (String.◌∷◌ d p) = false
has_prefix (String.◌∷◌ c s) (String.◌∷◌ d p) = eqb (code c) (code d) && has_prefix s p

without : String → String → String
without s String.[] = s
without String.[] (String.◌∷◌ d p) = ""
without (String.◌∷◌ c s) (String.◌∷◌ d p) = without s p

-- strings.TrimPrefix(s, prefix)
unfoldable pub trim_prefix : String → String → String
unfolding has_prefix without
trim_prefix s prefix = if has_prefix s prefix then without s prefix else s

-- strings.Count(s, sep)
unfoldable pub count : ℕ → String → ℕ
count sep String.[] = 0
count sep (String.◌∷◌ c s) = let rest = count sep s in if eqb (code c) sep then suc rest else rest

-- strings.Contains(s, sub)
unfoldable pub contains : String → String → Bool
unfolding has_prefix
contains String.[] sub = has_prefix "" sub
contains (String.◌∷◌ c s) sub = has_prefix (String.◌∷◌ c s) sub || contains s sub

abbrev pub add_first : Char → List String → List String
add_first c [] = (String.◌∷◌ c "") ∷ []
add_first c (p ∷ ps) = (String.◌∷◌ c p) ∷ ps

-- strings.Split(s, sep)
unfoldable pub split : ℕ → String → List String
split sep String.[] = "" ∷ []
split sep (String.◌∷◌ c s) =
    let rest = split sep s in if eqb (code c) sep then "" ∷ rest else add_first c rest

-- strings.Join(parts, sep)
unfoldable pub join : String → List String → String
join sep [] = ""
join sep (p ∷ []) = p
join sep (p ∷ q ∷ ps) = p ⧺ sep ⧺ join sep (q ∷ ps)

-- unicode.IsSpace
is_space : ℕ → Bool
is_space c =
    (leb 9 c && leb c 13)
    || eqb c 0x20
    || eqb c 0x85
    || eqb c 0xa0
    || eqb c 0x1680
    || (leb 0x2000 c && leb c 0x200a)
    || eqb c 0x2028
    || eqb c 0x2029
    || eqb c 0x202f
    || eqb c 0x205f
    || eqb c 0x3000

trim_left : String → String
trim_left String.[] = ""
trim_left (String.◌∷◌ c s) = if is_space (code c) then trim_left s else String.◌∷◌ c s

drop_space : Char → String → String
drop_space c String.[] = if is_space (code c) then "" else String.◌∷◌ c ""
drop_space c (String.◌∷◌ d s) = String.◌∷◌ c (String.◌∷◌ d s)

trim_right : String → String
trim_right String.[] = ""
trim_right (String.◌∷◌ c s) = drop_space c (trim_right s)

-- strings.TrimSpace
unfoldable pub trim_space : String → String
unfolding trim_left trim_right drop_space is_space
trim_space s = trim_right (trim_left s)

-- The text has no separator in it.
abbrev pub Lacks : ℕ → String → Type 0
Lacks sep String.[] = Unit
Lacks sep (String.◌∷◌ c s) = (code c ≢ sep) × Lacks sep s

pub Lacks-append : (sep : ℕ) (s t : String) → Lacks sep s → Lacks sep t → Lacks sep (s ⧺ t)
Lacks-append sep String.[] t h k = rw nil-append k
Lacks-append sep (String.◌∷◌ c s) t h k = rw cons-append (h.0, Lacks-append sep s t h.1 k)

pub split_of_Lacks : (sep : ℕ) (s : String) → Lacks sep s → split sep s ≡ s ∷ []
unfolding split
split_of_Lacks sep String.[] h = refl
split_of_Lacks sep (String.◌∷◌ c s) h = ground (arith, split_of_Lacks sep s)

-- A line and its end are split off.
pub split-line : (s t : String) → Lacks b'\n' s → split b'\n' (s ⧺ "\n" ⧺ t) ≡ s ∷ split b'\n' t
unfolding split
split-line String.[] t h = rw (nil-append, cons-append, nil-append)
split-line (String.◌∷◌ c s) t h = rw cons-append (ground (arith, split-line s t h.1))

pub has_prefix-append : (p s : String) → has_prefix (p ⧺ s) p ≡ true
unfolding has_prefix
has_prefix-append String.[] s = refl
has_prefix-append (String.◌∷◌ c p) s = rw cons-append (ground (arith, has_prefix-append p s))

contains-prefix : (sub b : String) → contains (sub ⧺ b) sub ≡ true
unfolding contains
contains-prefix String.[] String.[] = refl
contains-prefix String.[] (String.◌∷◌ c b) = rw nil-append
contains-prefix (String.◌∷◌ c sub) b = rw cons-append (ground (arith, has_prefix-append sub b))

pub contains-append : (a sub b : String) → contains (a ⧺ sub ⧺ b) sub ≡ true
unfolding contains
contains-append String.[] sub b = rw nil-append (contains-prefix sub b)
contains-append (String.◌∷◌ c a) sub b = rw cons-append (ground (arith, contains-append a sub b))

-- The text of a file whose lines all end: each line and its end, in order.
unfoldable pub unlines : List String → String
unlines [] = ""
unlines (l ∷ ls) = l ⧺ "\n" ⧺ unlines ls

pub split-unlines :
    (ls : List String) → All (Lacks b'\n') ls → split b'\n' (unlines ls) ≡ ls ++ "" ∷ []
unfolding unlines
split-unlines [] h = unfold split in refl
split-unlines (l ∷ ls) (h, k) = split-line l (unlines ls) h ∙ ap (λ ps. l ∷ ps) (split-unlines ls k)

pub join-unlines : (ls : List String) → join "\n" (ls ++ "" ∷ []) ≡ unlines ls
unfolding join unlines
join-unlines [] = refl
join-unlines (l ∷ []) = refl
join-unlines (l ∷ k ∷ ls) = ap (λ s. l ⧺ "\n" ⧺ s) (join-unlines (k ∷ ls))

pub unlines-append : (ls ks : List String) → unlines (ls ++ ks) ≡ unlines ls ⧺ unlines ks
unfolding unlines
unlines-append [] ks = sym (nil-append _)
unlines-append (l ∷ ls) ks = simp (unlines-append ls ks, append_assoc)
