-- ===== src/Base/Numbers.antt =====
-- `std::stoi`, `std::stoll` and the printing of integers.
use Prim.Native.Nat.{ℕ, zero, suc, ◌+◌, ◌-◌, ◌*◌, ◌/◌, ◌%◌, ◌^◌, ◌<◌}
use mathlib.Core.Path.{◌≡◌, refl, ap, subst, ◌∙◌}
use mathlib.Core.Logic.{inl, inr}
use native.Mathlib.Nat.{pow-suc}
use mathlib.Core.Bool.{Bool, true, false, ◌&&◌, ◌||◌}
use mathlib.Core.List.{[], ◌∷◌, ◌++◌}
use mathlib.Core.Option.{Option, none, some}
use native.Mathlib.Omega.{arith}
use frame_processor.Base.Tests.{ltb, leb, ◌==◌, Bool-cases, if◌then◌else◌}
use frame_processor.Base.Int.{ℤ, pos, negsuc, leb_ℤ, IsI32, IsI64}
use frame_processor.Base.Strings.{Text, digits, decimal}

abbrev pub is_digit : ℕ → Bool
is_digit c = leb 48 c && leb c 57

-- `std::isspace`.
abbrev pub is_space : ℕ → Bool
is_space c = c == 32 || (leb 9 c && leb c 13)

-- The number of the digits at the front, after `n`.
abbrev pub digits_value : ℕ → Text → ℕ
digits_value n [] = n
digits_value n (c ∷ cs) = if is_digit c then digits_value (n * 10 + (c - 48)) cs else n

abbrev pub starts_with_digit : Text → Bool
starts_with_digit [] = false
starts_with_digit (c ∷ cs) = is_digit c

-- The digits after a sign; the conversion throws if there are none.
abbrev pub unsigned : Text → Option ℕ
unsigned cs = if starts_with_digit cs then some (digits_value 0 cs) else none

abbrev pub negated : ℕ → ℤ
negated zero = pos 0
negated (suc n) = negsuc n

-- A sign and digits.
abbrev pub signed_number : Text → Option ℤ
signed_number [] = none
signed_number (c ∷ cs) =
    if c == 45
    then (elim (unsigned cs) [ none ↦ none | some n ↦ some (negated n) ])
    else if c == 43
    then (elim (unsigned cs) [ none ↦ none | some n ↦ some (pos n) ])
    else (elim (unsigned (c ∷ cs)) [ none ↦ none | some n ↦ some (pos n) ])

abbrev pub skip_spaces : Text → Text
skip_spaces [] = []
skip_spaces (c ∷ cs) = let rest = skip_spaces cs in if is_space c then rest else c ∷ cs

-- What is left after the number is ignored; `none` is an exception.
unfoldable pub parse_int : ℕ → Text → Option ℤ
parse_int half t = elim (signed_number (skip_spaces t)) [
  | none ↦ none
  | some n ↦ if leb_ℤ (negsuc (half - 1)) n && leb_ℤ n (pos (half - 1)) then some n else none
]

abbrev pub stoi : Text → Option ℤ
stoi = parse_int (2 ^ 31)

abbrev pub stoll : Text → Option ℤ
stoll = parse_int (2 ^ 63)

-- All characters are digits.
abbrev pub AreDigits : Text → Type 0
AreDigits [] = Unit
AreDigits (c ∷ cs) = (is_digit c ≡ true) × AreDigits cs

digits_value-append :
    (n d : ℕ) (xs : Text)
    → d < 10
    → AreDigits xs
    → digits_value n (xs ++ (48 + d) ∷ []) ≡ digits_value n xs * 10 + d
digits_value-append n d [] h a = ground arith
digits_value-append n d (x ∷ xs) h (p, a) = rw p (digits_value-append (n * 10 + (x - 48)) d xs h a)

AreDigits-append : (d : ℕ) (xs : Text) → d < 10 → AreDigits xs → AreDigits (xs ++ (48 + d) ∷ [])
AreDigits-append d [] h a = (ground arith, tt)
AreDigits-append d (x ∷ xs) h (p, a) = (p, AreDigits-append d xs h a)

pub digits-AreDigits : (f n : ℕ) → AreDigits (digits f n)
digits-AreDigits zero n = tt
digits-AreDigits (suc f) n = elim (Bool-cases (ltb n 10)) [
  | inl p ↦ rw p (ground arith)
  | inr q ↦
      rw q
        (AreDigits-append (n % 10) (digits f (n / 10)) (omega arith) (digits-AreDigits f (n / 10)))
]

tenth : (f n : ℕ) → n < 10 ^ suc f → n / 10 < 10 ^ f
tenth f n h = let k : n < 10 ^ f * 10 = subst (λ x. n < x) (pow-suc 10 f) h in omega arith

-- Enough digits are printed, and their value is the number.
pub digits_value-digits : (f n : ℕ) → n < 10 ^ f → digits_value 0 (digits f n) ≡ n
digits_value-digits zero n h = omega arith
digits_value-digits (suc f) n h = elim (Bool-cases (ltb n 10)) [
  | inl p ↦ rw p (ground arith)
  | inr q ↦
      let e =
        digits_value-append 0 (n % 10) (digits f (n / 10)) (omega arith)
          (digits-AreDigits f (n / 10)) in
      let v = digits_value-digits f (n / 10) (tenth f n h) in rw q (e ∙ rw v (omega arith))
]

starts_with_digit-append :
    (c : ℕ) (xs : Text) → is_digit c ≡ true → AreDigits xs → starts_with_digit (xs ++ c ∷ []) ≡ true
starts_with_digit-append c [] h a = h
starts_with_digit-append c (x ∷ xs) h (p, a) = p

pub starts_with_digit-digits : (f n : ℕ) → starts_with_digit (digits (suc f) n) ≡ true
starts_with_digit-digits f n = elim (Bool-cases (ltb n 10)) [
  | inl p ↦ rw p (ground arith)
  | inr q ↦ rw q (
      starts_with_digit-append (48 + n % 10) (digits f (n / 10)) (ground arith)
        (digits-AreDigits f (n / 10)))
]

-- A text that starts with a digit has neither spaces nor a sign in front.
signed_number-unsigned :
    (t : Text)
    → starts_with_digit t ≡ true
    → signed_number (skip_spaces t) ≡ some (pos (digits_value 0 t))
signed_number-unsigned [] h = ground arith
signed_number-unsigned (c ∷ cs) h = ground arith

signed_number-negative :
    (t : Text)
    → starts_with_digit t ≡ true
    → signed_number (skip_spaces (45 ∷ t)) ≡ some (negated (digits_value 0 t))
signed_number-negative t h = rw h refl

parse_int-signed_number :
    (half : ℕ) (t : Text) (z : ℤ)
    → signed_number (skip_spaces t) ≡ some z
    → leb_ℤ (negsuc (half - 1)) z && leb_ℤ z (pos (half - 1)) ≡ true
    → parse_int half t ≡ some z
unfolding parse_int
parse_int-signed_number half t z s h = rw (s, h, parse_int) refl

signed_number-decimal : (z : ℤ) → IsI64 z → signed_number (skip_spaces (decimal z)) ≡ some z
signed_number-decimal (pos n) h =
    signed_number-unsigned (digits 20 n) (starts_with_digit-digits 19 n)
    ∙ ap (λ v. some (pos v)) (digits_value-digits 20 n (omega arith))
signed_number-decimal (negsuc n) h =
    signed_number-negative (digits 20 (suc n)) (starts_with_digit-digits 19 (suc n))
    ∙ ap (λ v. some (negated v)) (digits_value-digits 20 (suc n) (omega arith))

fits-IsI64 : (z : ℤ) → IsI64 z → leb_ℤ (negsuc (2 ^ 63 - 1)) z && leb_ℤ z (pos (2 ^ 63 - 1)) ≡ true
fits-IsI64 (pos n) h = ground arith
fits-IsI64 (negsuc n) h = ground arith

fits-IsI32 : (z : ℤ) → IsI32 z → leb_ℤ (negsuc (2 ^ 31 - 1)) z && leb_ℤ z (pos (2 ^ 31 - 1)) ≡ true
fits-IsI32 (pos n) h = ground arith
fits-IsI32 (negsuc n) h = ground arith

IsI32-IsI64 : (z : ℤ) → IsI32 z → IsI64 z
IsI32-IsI64 (pos n) h = omega arith
IsI32-IsI64 (negsuc n) h = omega arith

-- What is printed of a number is read as that number.
pub stoll-decimal : (z : ℤ) → IsI64 z → stoll (decimal z) ≡ some z
stoll-decimal z h =
    parse_int-signed_number (2 ^ 63) (decimal z) z (signed_number-decimal z h) (fits-IsI64 z h)

pub stoi-decimal : (z : ℤ) → IsI32 z → stoi (decimal z) ≡ some z
stoi-decimal z h =
    parse_int-signed_number (2 ^ 31) (decimal z) z (signed_number-decimal z (IsI32-IsI64 z h))
      (fits-IsI32 z h)
