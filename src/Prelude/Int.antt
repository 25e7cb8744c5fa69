-- ===== src/Prelude/Int.antt =====
-- Integers over the native numbers, for values that the program does not check to be natural.
use eki.Prelude.{arith}
use Prim.Native.Nat.{◌≤◌, ℕ, suc}
use eki.Prelude.Tests.{leb, if◌then◌else◌}

-- `negsuc n` is -(n + 1).
pub data ℤ : Type 0 where
  pos : ℕ → ℤ
  negsuc : ℕ → ℤ

abbrev pub pos_part : ℤ → ℕ
pos_part (pos n) = n
pos_part (negsuc n) = 0

abbrev pub neg_part : ℤ → ℕ
neg_part (pos n) = 0
neg_part (negsuc n) = suc n

-- `Math.min(Math.max(index, 0), last)` of an integer.
abbrev pub clamp_index : ℤ → ℕ → ℕ
clamp_index z last = if leb (pos_part z) last then pos_part z else last

pub clamp_index-le : (z : ℤ) (last : ℕ) → clamp_index z last ≤ last
clamp_index-le z last = ground arith
