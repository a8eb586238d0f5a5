-- ===== src/Base/Int.antt =====
-- C's `int` results: zero and above by `pos`, -(n + 1) by `negsuc n`; the wrap of unsigned words.
use Prim.Native.Nat.{ℕ, zero, suc, ◌%◌, ◌^◌}
use mathlib.Core.Bool.{Bool, true, false}

pub data ℤ : Type 0 where
  pos : ℕ → ℤ
  negsuc : ℕ → ℤ

-- The C test `e < 0`.
abbrev pub is_neg : ℤ → Bool
is_neg (pos n) = false
is_neg (negsuc n) = true

abbrev pub neg : ℤ → ℤ
neg (pos zero) = pos zero
neg (pos (suc n)) = negsuc n
neg (negsuc n) = pos (suc n)

-- A value kept in a `uint32_t` or an `unsigned int`.
abbrev pub u32 : ℕ → ℕ
u32 n = n % 2 ^ 32
