-- ===== src/Base/Ranges.antt =====
-- The ranges of what `std::stoi` and `std::stoll` give.
use Prim.Native.Nat.{ℕ, ◌-◌, ◌^◌}
use mathlib.Core.Path.{◌≡◌, refl}
use mathlib.Core.Bool.{Bool, true, false, ◌&&◌}
use mathlib.Core.Option.{Option, none, some}
use native.Mathlib.Omega.{arith}
use frame_processor.Base.Tests.{◌>>=◌, if◌then◌else◌}
use frame_processor.Base.Int.{ℤ, pos, negsuc, leb_ℤ, IsI32, IsI64}
use frame_processor.Base.Strings.{Text}
use frame_processor.Base.Numbers.{signed_number, skip_spaces, parse_int, stoi, stoll}

-- A property of a result, if there is one.
abbrev pub IfSome {ℓ} : {A : Type ℓ} → (A → Type 0) → Option A → Type 0
IfSome P none = Unit
IfSome P (some a) = P a

pub IfSome-bind {ℓ} :
    {A B : Type ℓ} (P : A → Type 0) (Q : B → Type 0) (o : Option A) (k : A → Option B)
    → IfSome P o
    → ((a : A) → P a → IfSome Q (k a))
    → IfSome Q (o >>= k)
IfSome-bind P Q none k h f = tt
IfSome-bind P Q (some a) k h f = f a h

Fits : ℕ → ℤ → Type 0
Fits half z = leb_ℤ (negsuc (half - 1)) z && leb_ℤ z (pos (half - 1)) ≡ true

-- What is read is in the range, and this range lies in that of a type.
parse_int-Fits :
    (half : ℕ) (P : ℤ → Type 0) (t : Text)
    → ((z : ℤ) → Fits half z → P z)
    → IfSome P (parse_int half t)
unfolding parse_int Fits
parse_int-Fits half P t f = of_number (signed_number (skip_spaces t))
  where
    of_fits :
        (z : ℤ) (b : Bool)
        → leb_ℤ (negsuc (half - 1)) z && leb_ℤ z (pos (half - 1)) ≡ b
        → IfSome P (if b then some z else none)
    of_fits z false h = tt
    of_fits z true h = f z h

    of_number :
        (o : Option ℤ)
        → IfSome P (elim o as (λ o. Option ℤ) [
          | none ↦ none
          | some n ↦
              if leb_ℤ (negsuc (half - 1)) n && leb_ℤ n (pos (half - 1)) then some n else none
        ])
    of_number none = tt
    of_number (some z) = of_fits z (leb_ℤ (negsuc (half - 1)) z && leb_ℤ z (pos (half - 1))) refl

IsI32-Fits : (z : ℤ) → Fits (2 ^ 31) z → IsI32 z
unfolding Fits
IsI32-Fits (pos n) h = ground arith
IsI32-Fits (negsuc n) h = ground arith

IsI64-Fits : (z : ℤ) → Fits (2 ^ 63) z → IsI64 z
unfolding Fits
IsI64-Fits (pos n) h = ground arith
IsI64-Fits (negsuc n) h = ground arith

pub stoi-IsI32 : (t : Text) → IfSome IsI32 (stoi t)
stoi-IsI32 t = parse_int-Fits (2 ^ 31) IsI32 t IsI32-Fits

pub stoll-IsI64 : (t : Text) → IfSome IsI64 (stoll t)
stoll-IsI64 t = parse_int-Fits (2 ^ 63) IsI64 t IsI64-Fits
