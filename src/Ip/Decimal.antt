-- ===== src/Ip/Decimal.antt =====
-- Strings, and the decimal numbers in the addresses and ports of include/iocoro/ip/. A string is a list
-- of character codes. `from_chars` and `to_string` are those of the C++ library on 32-bit unsigned
-- numbers, `from_chars` on a whole string.
use iocoro.Base.{
  ℕ, zero, suc, ◌+◌, ◌-◌, ◌*◌, ◌/◌, ◌%◌, ◌≤◌, ◌<◌, ◌≡◌, refl, ap, ◌∙◌, Bool, true, ◌&&◌, Option,
  none, some, List, [], ◌∷◌, ◌++◌, arith, ltb, leb, if◌then◌else◌, All, append-All, length,
  length-append, ltb→lt, Bool-cases, inl, inr,
}

abbrev pub Str : Type 0
Str = List ℕ

abbrev pub is_digit : ℕ → Bool
is_digit c = leb 48 c && leb c 57

-- The number that the digits continue.
unfoldable pub digits_value : ℕ → Str → Option ℕ
digits_value n [] = some n
digits_value n (c ∷ cs) =
    let rest = digits_value (n * 10 + (c - 48)) cs in if is_digit c then rest else none

abbrev pub below : ℕ → Option ℕ → Option ℕ
below limit none = none
below limit (some n) = if ltb n limit then some n else none

-- `none` unless the whole string is a number below 2 ^ 32.
unfoldable pub from_chars : Str → Option ℕ
from_chars [] = none
from_chars (c ∷ cs) = below 4294967296 (digits_value 0 (c ∷ cs))

-- At most so many digits.
unfoldable pub digits : ℕ → ℕ → Str
digits zero n = []
digits (suc f) n =
    let rest = digits f (n / 10) in if ltb n 10 then (48 + n) ∷ [] else rest ++ (48 + n % 10) ∷ []

-- Ten digits are enough below 2 ^ 32.
abbrev pub to_string : ℕ → Str
to_string n = digits 10 n

abbrev bound : ℕ → ℕ
bound zero = 1
bound (suc f) = 10 * bound f

abbrev continue : Option ℕ → ℕ → Option ℕ
continue none d = none
continue (some v) d = some (v * 10 + d)

is_digit-of : (d : ℕ) → d < 10 → is_digit (48 + d) ≡ true
is_digit-of d h = ground arith

digits_value-append :
    (n d : ℕ) (xs : Str)
    → d < 10
    → digits_value n (xs ++ (48 + d) ∷ []) ≡ continue (digits_value n xs) d
unfolding digits_value
digits_value-append n d [] h = rw (is_digit-of d h) (ap some (omega arith))
digits_value-append n d (x ∷ xs) h = elim (Bool-cases (is_digit x)) [
  | inl e ↦ rw e (digits_value-append (n * 10 + (x - 48)) d xs h)
  | inr e ↦ rw e refl
]

one_digit : (n : ℕ) → n < 10 → digits_value 0 ((48 + n) ∷ []) ≡ some n
unfolding digits_value
one_digit n h = rw (is_digit-of n h) (ap some (omega arith))

digits_value-digits : (f n : ℕ) → n < bound f → digits_value 0 (digits f n) ≡ some n
unfolding digits digits_value
digits_value-digits zero n h = ap some (omega (arith, h))
digits_value-digits (suc f) n h = elim (Bool-cases (ltb n 10)) [
  | inl e ↦ rw e (one_digit n (ltb→lt n 10 e))
  | inr e ↦ rw e (
      digits_value-append 0 (n % 10) (digits f (n / 10)) (omega arith)
      ∙ (ap (λ o. continue o (n % 10)) (digits_value-digits f (n / 10) (omega (arith, h)))
          ∙ ap some (omega arith)))
]

-- Each character of a printed number is a digit.
abbrev pub IsNumeric : Str → Type 0
IsNumeric s = All (λ c. is_digit c ≡ true) s

digits-IsNumeric : (f n : ℕ) → IsNumeric (digits f n)
unfolding digits
digits-IsNumeric zero n = tt
digits-IsNumeric (suc f) n = elim (Bool-cases (ltb n 10)) [
  | inl e ↦ rw e (is_digit-of n (ltb→lt n 10 e), tt)
  | inr e ↦ rw e (
      append-All (λ c. is_digit c ≡ true) (digits f (n / 10)) (48 + n % 10)
        (digits-IsNumeric f (n / 10)) (is_digit-of (n % 10) (omega arith)))
]

pub to_string-IsNumeric : (n : ℕ) → IsNumeric (to_string n)
to_string-IsNumeric n = digits-IsNumeric 10 n

from_chars-value :
    (s : Str) (n : ℕ)
    → 1 ≤ length s
    → n < 4294967296
    → digits_value 0 s ≡ some n
    → from_chars s ≡ some n
unfolding from_chars
from_chars-value [] n l b h = absurd (omega (arith, l))
from_chars-value (c ∷ cs) n l b h = rw h (ground arith)

length-digits : (f n : ℕ) → 1 ≤ length (digits (suc f) n)
unfolding digits
length-digits f n = elim (Bool-cases (ltb n 10)) [
  | inl e ↦ rw e (omega arith)
  | inr e ↦ rw e (omega (arith, length-append (digits f (n / 10)) ((48 + n % 10) ∷ [])))
]

-- Reading back a number that was printed gives the number.
pub from_chars-to_string : (n : ℕ) → n < 4294967296 → from_chars (to_string n) ≡ some n
from_chars-to_string n h =
    from_chars-value (to_string n) n (length-digits 9 n) h
      (digits_value-digits 10 n (omega (arith, h)))
