-- ===== src/Prelude/Int.antt =====
-- Go's `int`, where a counter may pass below zero.
use Prim.Native.Nat.{ℕ, suc, ◌+◌, ◌-◌}
use go_afxdp.Prelude.Tests.{leb, if◌then◌else◌}

-- `negsuc n` is -(n + 1).
pub data ℤ : Type 0 where
  pos : ℕ → ℤ
  negsuc : ℕ → ℤ

abbrev pub pos_part : ℤ → ℕ
pos_part (pos n) = n
pos_part (negsuc n) = 0

abbrev pub neg_part : ℤ → ℕ
neg_part (pos n) = 0
neg_part (negsuc n) = suc n

abbrev pub sub_ℕ : ℕ → ℕ → ℤ
sub_ℕ a b = if leb b a then pos (a - b) else negsuc (b - a - 1)

infixl 65 ◌+ℤ◌ ◌-ℤ◌
-- `x += n` and `x -= n` for a count `n`.
abbrev pub ◌+ℤ◌ : ℤ → ℕ → ℤ
a +ℤ n = sub_ℕ (pos_part a + n) (neg_part a)

abbrev pub ◌-ℤ◌ : ℤ → ℕ → ℤ
a -ℤ n = sub_ℕ (pos_part a) (neg_part a + n)
