-- ===== src/Common/Integers.antt =====
-- Go's `int`, as an integer: the values in question are far from its bounds.
use Prim.Native.Nat.{ℕ, zero, suc, ◌+◌, ◌-◌}
use mathlib.Core.Bool.{Bool, true, false}
use storage_cert_harness.Common.Tests.{leb, if◌then◌else◌}

-- `negsuc n` is -(n + 1).
pub data ℤ : Type 0 where
  pos : ℕ → ℤ
  negsuc : ℕ → ℤ

abbrev pub is_negative : ℤ → Bool
is_negative (ℤ.pos n) = false
is_negative (ℤ.negsuc n) = true

abbrev pub is_zero : ℤ → Bool
is_zero (ℤ.pos zero) = true
is_zero (ℤ.pos (suc n)) = false
is_zero (ℤ.negsuc n) = false

abbrev pub is_positive : ℤ → Bool
is_positive (ℤ.pos zero) = false
is_positive (ℤ.pos (suc n)) = true
is_positive (ℤ.negsuc n) = false

infixl 6 ◌-ℤ◌
abbrev pub ◌-ℤ◌ : ℤ → ℤ → ℤ
ℤ.pos m -ℤ ℤ.pos n = if leb n m then ℤ.pos (m - n) else ℤ.negsuc (n - m - 1)
ℤ.pos m -ℤ ℤ.negsuc n = ℤ.pos (m + n + 1)
ℤ.negsuc m -ℤ ℤ.pos n = ℤ.negsuc (m + n)
ℤ.negsuc m -ℤ ℤ.negsuc n = if leb m n then ℤ.pos (n - m) else ℤ.negsuc (m - n - 1)

infixl 6 ◌+ℤ◌
abbrev pub ◌+ℤ◌ : ℤ → ℤ → ℤ
a +ℤ ℤ.pos zero = a
a +ℤ ℤ.pos (suc n) = a -ℤ ℤ.negsuc n
a +ℤ ℤ.negsuc n = a -ℤ ℤ.pos (suc n)
