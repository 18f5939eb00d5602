-- ===== src/Base/Decimal.antt =====
-- What the program uses of strconv: Itoa and Atoi (ParseInt in base 10) of a 64-bit int.
use Prim.Native.Nat.{ℕ, zero, suc, ◌+◌, ◌-◌, ◌*◌, ◌/◌, ◌%◌, ◌^◌, ◌<◌, ◌≤◌}
use mathlib.Core.Path.{◌≡◌, refl}
use mathlib.Core.Bool.{Bool, false, ◌&&◌, ◌||◌}
use mathlib.Core.Option.{Option, none, some}
use mathlib.Core.List.{[], ◌∷◌}
use native.Mathlib.Omega.{arith}
use shadow_stat.Base.Tests.{if◌then◌else◌, ◌==◌, leb}
use shadow_stat.Base.Text.{Text, Lacks}

-- int64; `negsuc n` is -(n + 1)
pub data ℤ : Type 0 where
  pos : ℕ → ℤ
  negsuc : ℕ → ℤ

abbrev pub max_int64 : ℕ
max_int64 = 2 ^ 63 - 1

unfoldable pub is_digit : ℕ → Bool
is_digit c = leb b'0' c && leb c b'9'

-- The digits of `n` in front of `out`; a round for each digit, so fuel above `n` is enough.
unfoldable pub digits : ℕ → ℕ → Text → Text
digits zero n out = out
digits (suc fuel) n out =
    let rest = digits fuel (n / 10) ((b'0' + n % 10) ∷ out) in if n == 0 then out else rest

unfoldable pub itoa : ℕ → Text
unfolding digits
itoa n = if n == 0 then b'0' ∷ [] else digits (suc n) n []

-- The value of digits behind `n`, with no bound; `none` at anything else.
unfoldable pub value : Text → ℕ → Option ℕ
unfolding is_digit
value [] n = some n
value (c ∷ s) n = let rest = value s (n * 10 + (c - b'0')) in if is_digit c then rest else none

unfoldable pub unsigned : Text → Option ℕ
unfolding value
unsigned [] = none
unsigned (c ∷ s) = value (c ∷ s) 0

abbrev pub within : ℕ → Option ℕ → Option ℕ
within bound none = none
within bound (some n) = if leb n bound then some n else none

abbrev negated : Option ℕ → Option ℤ
negated none = none
negated (some zero) = some (pos 0)
negated (some (suc n)) = some (negsuc n)

abbrev positive : Option ℕ → Option ℤ
positive none = none
positive (some n) = some (pos n)

-- A sign, digits, and a value that fits.
unfoldable pub atoi : Text → Option ℤ
unfolding unsigned
atoi [] = none
atoi (c ∷ s) =
    if c == b'-'
    then negated (within (2 ^ 63) (unsigned s))
    else if c == b'+'
    then positive (within max_int64 (unsigned s))
    else positive (within max_int64 (unsigned (c ∷ s)))

-- Reading the digits of `n` in front of `out` is reading `out` behind `n`.
value-digits : (fuel n : ℕ) (out : Text) → n < fuel → value (digits fuel n out) 0 ≡ value out n
unfolding digits value is_digit
value-digits zero n out h = ground arith
value-digits (suc fuel) n out h = ground (arith, value-digits fuel (n / 10) ((b'0' + n % 10) ∷ out))

digits-all :
    (p : ℕ → Bool) (fuel n : ℕ) (out : Text)
    → ((d : ℕ) → d < 10 → p (b'0' + d) ≡ false)
    → Lacks p out
    → Lacks p (digits fuel n out)
unfolding digits
digits-all p zero n out k h = h
digits-all p (suc fuel) n out k h =
    ground (arith, k (n % 10), digits-all p fuel (n / 10) ((b'0' + n % 10) ∷ out) k)

-- A decimal text has no character that is not a digit.
pub itoa-Lacks :
    (p : ℕ → Bool) (n : ℕ) → ((d : ℕ) → d < 10 → p (b'0' + d) ≡ false) → Lacks p (itoa n)
unfolding itoa
itoa-Lacks p n k = ground (arith, k 0, digits-all p (suc n) n [] k)

unsigned-value : (s : Text) (n : ℕ) → value s 0 ≡ some n → 0 < n → unsigned s ≡ some n
unfolding unsigned value
unsigned-value [] n h k = ground arith
unsigned-value (c ∷ s) n h k = h

itoa-digits : (n : ℕ) → 0 < n → itoa n ≡ digits (suc n) n []
unfolding itoa
itoa-digits n h = ground arith

pub unsigned-itoa : (n : ℕ) → unsigned (itoa n) ≡ some n
unfolding value
unsigned-itoa zero = unfold itoa in unfold unsigned in unfold value in unfold is_digit in refl
unsigned-itoa (suc n) = rw (itoa-digits (suc n) (omega arith)) (
    unsigned-value (digits (suc (suc n)) (suc n) []) (suc n)
      (value-digits (suc (suc n)) (suc n) [] (omega arith)) (omega arith))

abbrev is_sign : ℕ → Bool
is_sign c = (c == b'-') || (c == b'+')

atoi-unsigned :
    (s : Text) (n : ℕ)
    → unsigned s ≡ some n
    → Lacks is_sign s
    → n ≤ max_int64
    → atoi s ≡ some (pos n)
unfolding atoi
atoi-unsigned [] n h l k = unfold unsigned in cc
atoi-unsigned (c ∷ s) n h l k = ground (arith, l.0, h)

-- Atoi reads back what Itoa writes, for every int that is not negative.
pub atoi-itoa : (n : ℕ) → n ≤ max_int64 → atoi (itoa n) ≡ some (pos n)
atoi-itoa n h =
    atoi-unsigned (itoa n) n (unsigned-itoa n) (itoa-Lacks is_sign n (λ d k. ground arith)) h
