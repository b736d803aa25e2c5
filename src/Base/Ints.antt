-- ===== src/Base/Ints.antt =====
-- The integers over the native numbers, for results that are -1 or an index.
use Prim.Native.Nat.{ℕ}

pub data ℤ : Type 0 where
  pos : ℕ → ℤ
  negsuc : ℕ → ℤ

abbrev pub minus_one : ℤ
minus_one = negsuc 0
