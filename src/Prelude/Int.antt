-- ===== src/Prelude/Int.antt =====
-- Go's `int` over the native numbers, with the decimal conversions of `strconv` and `%d`.
use Prim.Native.Nat.{ℕ, zero, suc, ◌+◌, ◌-◌, ◌*◌, ◌/◌, ◌%◌}
use Prim.Native.Char.{Char, code}
use Prim.Native.String
use Prim.Native.String.{String}
use mathlib.Core.Path.{◌≡◌, refl}
use mathlib.Core.Bool.{Bool, true, false, ◌&&◌}
use mathlib.Core.Option.{Option, none, some}
use native.Mathlib.Omega.{arith}
use boringproxy.Prelude.Basics.{leb, ltb, eqb, if◌then◌else◌, Bool-cases}
use boringproxy.Prelude.Text.{Lacks, Lacks-append}
use mathlib.Core.Logic.{inl, inr}
use boringproxy.Prelude.Result.{Result, ok, err}

-- `negsuc n` is -(n + 1).
pub data ℤ : Type 0 where
  pos : ℕ → ℤ
  negsuc : ℕ → ℤ

-- `a == b` on integers
abbrev pub eq_ℤ : ℤ → ℤ → Bool
eq_ℤ (pos a) (pos b) = eqb a b
eq_ℤ (negsuc a) (negsuc b) = eqb a b
eq_ℤ _ _ = false

pub eq_of_eq_ℤ : (a b : ℤ) → eq_ℤ a b ≡ true → a ≡ b
eq_of_eq_ℤ (pos a) (pos b) h = ground arith
eq_of_eq_ℤ (negsuc a) (negsuc b) h = ground arith
eq_of_eq_ℤ (pos a) (negsuc b) h = cc
eq_of_eq_ℤ (negsuc a) (pos b) h = cc

pub eq_ℤ_refl : (a : ℤ) → eq_ℤ a a ≡ true
eq_ℤ_refl (pos a) = ground arith
eq_ℤ_refl (negsuc a) = ground arith

digit : ℕ → String
digit zero = "0"
digit (suc zero) = "1"
digit (suc (suc zero)) = "2"
digit (suc (suc (suc zero))) = "3"
digit (suc (suc (suc (suc zero)))) = "4"
digit (suc (suc (suc (suc (suc zero))))) = "5"
digit (suc (suc (suc (suc (suc (suc zero)))))) = "6"
digit (suc (suc (suc (suc (suc (suc (suc zero))))))) = "7"
digit (suc (suc (suc (suc (suc (suc (suc (suc zero)))))))) = "8"
digit _ = "9"

-- A number has no more digits than it is large, so `suc n` rounds of fuel are enough for `n`.
digits_from : ℕ → ℕ → String → String
digits_from zero n acc = acc
digits_from (suc f) n acc =
    let more = digits_from f (n / 10) (String.◌++◌ (digit (n % 10)) acc) in
    if ltb n 10 then String.◌++◌ (digit n) acc else more

decimal : ℕ → String
decimal n = digits_from (suc n) n ""

-- `%d`
unfoldable pub itoa : ℤ → String
unfolding decimal digits_from digit
itoa (pos n) = decimal n
itoa (negsuc n) = String.◌++◌ "-" (decimal (suc n))

is_digit : Char → Bool
is_digit c = leb b'0' (code c) && leb (code c) b'9'

-- The value of a text of digits, with what stands before it in `acc`.
parse_digits : ℕ → String → Option ℕ
parse_digits acc String.[] = some acc
parse_digits acc (String.◌∷◌ c s) =
    let more = parse_digits (acc * 10 + (code c - b'0')) s in if is_digit c then more else none

unsigned : String → Option ℕ
unsigned String.[] = none
unsigned (String.◌∷◌ c s) = parse_digits 0 (String.◌∷◌ c s)

atoi_error : String → String → Result ℤ
atoi_error s why =
    err (String.◌++◌ "strconv.Atoi: parsing \"" (String.◌++◌ s (String.◌++◌ "\": " why)))

-- The range of `int` is that of 64 bits.
abbrev pub max_int : ℕ
max_int = 9223372036854775807

positive : String → Option ℕ → Result ℤ
positive s none = atoi_error s "invalid syntax"
positive s (some n) = if leb n max_int then ok (pos n) else atoi_error s "value out of range"

negate : ℕ → ℤ
negate zero = pos 0
negate (suc n) = negsuc n

negative : String → Option ℕ → Result ℤ
negative s none = atoi_error s "invalid syntax"
negative s (some n) =
    if leb n (max_int + 1) then ok (negate n) else atoi_error s "value out of range"

-- strconv.Atoi
unfoldable pub atoi : String → Result ℤ
unfolding unsigned parse_digits is_digit positive negative negate atoi_error
atoi String.[] = atoi_error "" "invalid syntax"
atoi (String.◌∷◌ c s) =
    if eqb (code c) b'-'
    then negative (String.◌∷◌ c s) (unsigned s)
    else if eqb (code c) b'+'
    then positive (String.◌∷◌ c s) (unsigned s)
    else positive (String.◌∷◌ c s) (unsigned (String.◌∷◌ c s))

itoa_port : itoa (pos 8080) ≡ "8080"
unfolding itoa
itoa_port = refl

atoi_port : atoi "8080" ≡ ok (pos 8080)
unfolding atoi
atoi_port = refl

atoi_negative : atoi "-12" ≡ ok (negsuc 11)
unfolding atoi
atoi_negative = refl

pub eq_ℤ_of_eq : (a b : ℤ) → a ≡ b → eq_ℤ a b ≡ true
eq_ℤ_of_eq a b h = rw h (eq_ℤ_refl b)

-- A printed number has no line end in it.
digit-Lacks : (n : ℕ) → Lacks b'\n' (digit n)
unfolding digit
digit-Lacks zero = ground arith
digit-Lacks (suc zero) = ground arith
digit-Lacks (suc (suc zero)) = ground arith
digit-Lacks (suc (suc (suc zero))) = ground arith
digit-Lacks (suc (suc (suc (suc zero)))) = ground arith
digit-Lacks (suc (suc (suc (suc (suc zero))))) = ground arith
digit-Lacks (suc (suc (suc (suc (suc (suc zero)))))) = ground arith
digit-Lacks (suc (suc (suc (suc (suc (suc (suc zero))))))) = ground arith
digit-Lacks (suc (suc (suc (suc (suc (suc (suc (suc zero)))))))) = ground arith
digit-Lacks (suc (suc (suc (suc (suc (suc (suc (suc (suc n))))))))) = ground arith

digits_from-Lacks : (f n : ℕ) (acc : String) → Lacks b'\n' acc → Lacks b'\n' (digits_from f n acc)
unfolding digits_from
digits_from-Lacks zero n acc h = h
digits_from-Lacks (suc f) n acc h = elim (Bool-cases (ltb n 10)) [
  | inl e ↦ rw e (Lacks-append b'\n' (digit n) acc (digit-Lacks n) h)
  | inr e ↦
      rw e
        (digits_from-Lacks f (n / 10) _ (Lacks-append b'\n' (digit (n % 10)) acc (digit-Lacks _) h))
]

pub itoa-Lacks : (n : ℤ) → Lacks b'\n' (itoa n)
unfolding itoa
itoa-Lacks (pos n) = digits_from-Lacks (suc n) n "" tt
itoa-Lacks (negsuc n) =
    Lacks-append b'\n' "-" _ (ground arith) (digits_from-Lacks (suc (suc n)) (suc n) "" tt)
