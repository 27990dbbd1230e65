-- ===== src/Shared/Int.antt =====
-- Signed integers over the native numbers, under the library's names.
use Prim.Native.Nat.{ℕ, suc, ◌+◌, ◌-◌, ◌^◌, ◌%◌, ◌≤◌, ◌<◌}
use mathlib.Core.Bool.{Bool}
use database_router.Shared.Tests.{ltb, if◌then◌else◌}

-- `negsuc n` is -(n + 1).
pub data ℤ : Type 0 where
  pos : ℕ → ℤ
  negsuc : ℕ → ℤ

abbrev pub pos_part : ℤ → ℕ
pos_part (pos n) = n
pos_part (negsuc n) = 0

abbrev neg_part : ℤ → ℕ
neg_part (pos n) = 0
neg_part (negsuc n) = suc n

infix 50 ◌≤ℤ◌
abbrev pub ◌≤ℤ◌ : ℤ → ℤ → Type 0
a ≤ℤ b = pos_part a + neg_part b ≤ pos_part b + neg_part a

-- a < b
abbrev pub ltb_ℤ : ℤ → ℤ → Bool
ltb_ℤ a b = ltb (pos_part a + neg_part b) (pos_part b + neg_part a)

-- The integer that a residue modulo 2 ^ w stands for in two's complement.
abbrev of_bits : ℕ → ℕ → ℤ
of_bits w r = if ltb r (2 ^ (w - 1)) then pos r else negsuc (2 ^ w - 1 - r)

-- The residue of an integer modulo 2 ^ w.
abbrev to_bits : ℕ → ℤ → ℕ
to_bits w (pos n) = n % 2 ^ w
to_bits w (negsuc n) = 2 ^ w - 1 - n % 2 ^ w

-- A conversion to a signed w-bit integer: it wraps around.
abbrev pub wrap : ℕ → ℤ → ℤ
wrap w a = of_bits w (to_bits w a)

-- The range of a signed w-bit integer.
abbrev pub IsInt : ℕ → ℤ → Type 0
IsInt w a = (pos_part a < 2 ^ (w - 1)) × (neg_part a ≤ 2 ^ (w - 1))
