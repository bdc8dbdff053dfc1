-- ===== src/Base/Int.antt =====
-- Signed C integers over the native numbers: int32_t, int16_t and int64_t values as ℤ.
use Prim.Native.Nat.{ℕ, zero, suc, ◌+◌, ◌-◌, ◌*◌, ◌/◌}
use mathlib.Core.Bool.{Bool, false}
use veetee_vuqb.Base.Tests.{ltb, ◌==◌, if◌then◌else◌}

-- `negsuc n` is -(n + 1).
pub data ℤ : Type 0 where
  pos : ℕ → ℤ
  negsuc : ℕ → ℤ

-- -n
abbrev pub negated : ℕ → ℤ
negated zero = pos 0
negated (suc n) = negsuc n

infixl 20 ◌+ℤ◌
abbrev pub ◌+ℤ◌ : ℤ → ℤ → ℤ
pos a +ℤ pos b = pos (a + b)
negsuc a +ℤ negsuc b = negsuc (a + b + 1)
pos a +ℤ negsuc b = if ltb b a then pos (a - b - 1) else negated (b + 1 - a)
negsuc a +ℤ pos b = if ltb a b then pos (b - a - 1) else negated (a + 1 - b)

-- The product with an unsigned factor.
abbrev pub scaled : ℤ → ℕ → ℤ
scaled (pos a) n = pos (a * n)
scaled (negsuc a) n = negated ((a + 1) * n)

-- The quotient by an unsigned divisor, which C rounds towards zero.
abbrev pub quotient : ℤ → ℕ → ℤ
quotient (pos a) n = pos (a / n)
quotient (negsuc a) n = negated ((a + 1) / n)

-- `a == b`
abbrev pub int_eq : ℤ → ℤ → Bool
int_eq (pos a) (pos b) = a == b
int_eq (negsuc a) (negsuc b) = a == b
int_eq (pos a) (negsuc b) = false
int_eq (negsuc a) (pos b) = false

-- `0 < a`
abbrev pub is_positive : ℤ → Bool
is_positive (pos a) = ltb 0 a
is_positive (negsuc a) = false
