-- ===== src/Base/Int.antt =====
-- Signed integers over the native numbers, and the machine integers of the source.
use Prim.Native.Nat.{ℕ, suc, ◌+◌, ◌-◌, ◌%◌, ◌^◌, ◌≤◌, ◌<◌}
use mathlib.Core.Path.{◌≡◌}
use mathlib.Core.Bool.{Bool, false}
use native.Mathlib.Omega.{arith}
use frame_processor.Base.Tests.{ltb, leb, ◌==◌, if◌then◌else◌, Decides}

-- `negsuc n` is -(n + 1).
pub data ℤ : Type 0 where
  pos : ℕ → ℤ
  negsuc : ℕ → ℤ

abbrev pub pos_part : ℤ → ℕ
pos_part (pos n) = n
pos_part (negsuc n) = 0

abbrev pub neg_part : ℤ → ℕ
neg_part (pos n) = 0
neg_part (negsuc n) = suc n

infix 50 ◌≤ℤ◌ ◌<ℤ◌
abbrev pub ◌≤ℤ◌ : ℤ → ℤ → Type 0
a ≤ℤ b = pos_part a + neg_part b ≤ pos_part b + neg_part a

abbrev pub ◌<ℤ◌ : ℤ → ℤ → Type 0
a <ℤ b = pos_part a + neg_part b < pos_part b + neg_part a

abbrev pub ltb_ℤ : ℤ → ℤ → Bool
ltb_ℤ a b = ltb (pos_part a + neg_part b) (pos_part b + neg_part a)

abbrev pub leb_ℤ : ℤ → ℤ → Bool
leb_ℤ a b = leb (pos_part a + neg_part b) (pos_part b + neg_part a)

abbrev pub eqb_ℤ : ℤ → ℤ → Bool
eqb_ℤ (pos a) (pos b) = a == b
eqb_ℤ (pos a) (negsuc b) = false
eqb_ℤ (negsuc a) (pos b) = false
eqb_ℤ (negsuc a) (negsuc b) = a == b

pub eqb_ℤ_iff : Decides eqb_ℤ
eqb_ℤ_iff (pos a) (pos b) = ground arith
eqb_ℤ_iff (pos a) (negsuc b) = ground arith
eqb_ℤ_iff (negsuc a) (pos b) = ground arith
eqb_ℤ_iff (negsuc a) (negsuc b) = ground arith

-- The residue of an integer modulo `m`, as a conversion to an unsigned type of `m` values has it.
abbrev pub residue : ℕ → ℤ → ℕ
residue m (pos n) = n % m
residue m (negsuc n) = m - 1 - n % m

-- The signed reading of a bit pattern below `m`, whose half is `h`.
abbrev pub signed : ℕ → ℕ → ℕ → ℤ
signed h m n = if ltb n h then pos n else negsuc (m - 1 - n)

-- `static_cast<uint32_t>`, `static_cast<int>` and `static_cast<uint64_t>` of a wider value.
abbrev pub to_u32 : ℤ → ℕ
to_u32 = residue (2 ^ 32)

abbrev pub to_i32 : ℤ → ℤ
to_i32 z = signed (2 ^ 31) (2 ^ 32) (residue (2 ^ 32) z)

abbrev pub to_u64 : ℤ → ℕ
to_u64 = residue (2 ^ 64)

abbrev pub of_u64 : ℕ → ℤ
of_u64 = signed (2 ^ 63) (2 ^ 64)

-- The values of `int` and of `int64_t`.
abbrev pub IsI32 : ℤ → Type 0
IsI32 z = (neg_part z ≤ 2 ^ 31) × (pos_part z < 2 ^ 31)

abbrev pub IsI64 : ℤ → Type 0
IsI64 z = (neg_part z ≤ 2 ^ 63) × (pos_part z < 2 ^ 63)

pub to_i32_self : (z : ℤ) → IsI32 z → to_i32 z ≡ z
to_i32_self (pos n) h = ground arith
to_i32_self (negsuc n) h = ground arith

pub to_i32-IsI32 : (z : ℤ) → IsI32 (to_i32 z)
to_i32-IsI32 (pos n) = ground arith
to_i32-IsI32 (negsuc n) = ground arith

pub of_u64-to_u64 : (z : ℤ) → IsI64 z → of_u64 (to_u64 z) ≡ z
of_u64-to_u64 (pos n) h = ground arith
of_u64-to_u64 (negsuc n) h = ground arith

-- `%` of the source: the quotient is cut towards zero, so the sign is the dividend's.
abbrev pub int_mod : ℤ → ℕ → ℤ
int_mod (pos n) m = pos (n % m)
int_mod (negsuc n) m = if suc n % m == 0 then pos 0 else negsuc (suc n % m - 1)

pub to_u64_lt : (z : ℤ) → to_u64 z < 2 ^ 64
to_u64_lt (pos n) = omega arith
to_u64_lt (negsuc n) = omega arith
