-- ===== src/Utils/RandomCode.antt =====
-- genRandomCode: how long a code is, and of what characters.
use Prim.Native.String.{String, count, len}
use text.Mathlib.TextLemmas.{length-append, length-cons, length-nil}
use boringproxy.Prelude.{ℕ, zero, suc, ◌+◌, ◌<◌, ◌≤◌, ◌≡◌, refl, arith}
use boringproxy.Prelude.Text.{◌⧺◌}
use boringproxy.Prelude.Result.{Result, ok}
use boringproxy.Utils.{chars, char_at, gen_from, gen_random_code}

-- The alphabet has 62 characters, and each index below that names one.
char_at-below :
    (s : String) (i : ℕ) → i < count s → (c : String) × (char_at s i ≡ ok c) × (count c ≡ 1)
unfolding char_at
char_at-below String.[] i h = elim h [ ]
char_at-below (String.◌∷◌ c s) zero h =
    (String.◌∷◌ c "", refl, omega (arith, length-cons c "", length-nil))
char_at-below (String.◌∷◌ c s) (suc i) h = char_at-below s i (omega (arith, length-cons c s))

-- What rand.Int promises while its reader works: with a positive bound, a number below it.
pub record Draws (rand : ℕ → ℕ → Result ℕ) : Type 0 where
  pub index : ℕ → ℕ → ℕ
  pub drawn : (i max : ℕ) → 0 < max → rand i max ≡ ok (index i max)
  pub below : (i max : ℕ) → 0 < max → index i max < max

-- The bound that genRandomCode passes is positive, and no more than the characters of the alphabet.
bound : (0 < len chars) × (len chars ≤ count chars)
bound = (omega arith, omega arith)

gen_from-count :
    (rand : ℕ → ℕ → Result ℕ)
    → Draws rand
    → (n i : ℕ) (id : String)
    → (s : String) × (gen_from rand n i id ≡ ok s) × (count s ≡ count id + n)
unfolding gen_from
gen_from-count rand d zero i id = (id, refl, omega arith)
gen_from-count rand d (suc n) i id =
    let drawn_below = d.below i (len chars) bound.0 in
    let (c, found, one) =
      char_at-below chars (d.index i (len chars)) (omega (arith, drawn_below, bound.1)) in
    let (s, rest, long) = gen_from-count rand d n (suc i) (id ⧺ c) in
    (
      s,
      rw (d.drawn i (len chars) bound.0, found) rest,
      omega (arith, long, one, length-append id c),
    )

-- While rand.Int keeps its promise, to give a number below the bound that it is called with, which has
-- to be positive, genRandomCode returns without an error or a panic, and the code has as many
-- characters as were asked for.
pub gen_random_code-count :
    (rand : ℕ → ℕ → Result ℕ) (length : ℕ)
    → Draws rand
    → (s : String) × (gen_random_code rand length ≡ ok s) × (count s ≡ length)
unfolding gen_random_code
gen_random_code-count rand length d =
    let (s, made, long) = gen_from-count rand d length 0 "" in (s, made, omega (arith, long))
