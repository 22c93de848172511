-- ===== src/Base/Int.antt =====
-- Signed numbers, for the fields of type `int`; `negsuc n` is -(n + 1).
use Prim.Native.Nat.{ℕ, zero, suc}
use mathlib.Core.Bool.{Bool, true, false}

pub data ℤ : Type 0 where
  pos : ℕ → ℤ
  negsuc : ℕ → ℤ

-- x <= 0
abbrev pub is_le_zero : ℤ → Bool
is_le_zero (pos zero) = true
is_le_zero (pos (suc n)) = false
is_le_zero (negsuc n) = true

-- x < 0
abbrev pub is_lt_zero : ℤ → Bool
is_lt_zero (pos n) = false
is_lt_zero (negsuc n) = true
