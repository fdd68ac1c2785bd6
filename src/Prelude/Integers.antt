-- ===== src/Prelude/Integers.antt =====
-- Signed numbers over the native natural ones.
use Prim.Native.Nat.{ℕ}
use mathlib.Core.Bool.{Bool}

pub data ℤ : Type 0 where
  pos : ℕ → ℤ
  negsuc : ℕ → ℤ

abbrev pub is_negative : ℤ → Bool
is_negative (ℤ.pos n) = Bool.false
is_negative (ℤ.negsuc n) = Bool.true
