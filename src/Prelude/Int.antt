-- ===== src/Prelude/Int.antt =====
-- Signed integers of 64 bits: `negsuc n` is -(n + 1).
use Prim.Native.Nat.{ℕ, zero, suc, ◌+◌, ◌-◌, ◌*◌, ◌%◌, ◌^◌}
use mathlib.Core.Bool.{Bool, false}
use native.Mathlib.Decide.{ℕ_discrete}
use ployz.Prelude.Tests.{ltb, if◌then◌else◌}
use ployz.Prelude.Equality.{Eq}

pub data ℤ : Type 0 where
  pos : ℕ → ℤ
  negsuc : ℕ → ℤ

ℤ-discrete : Discrete ℤ
ℤ-discrete = hlevel (ℕ_discrete)

instance unfoldable pub int_eq : Eq ℤ
unfolding ℤ-discrete ℕ_discrete
int_eq = record { dec = ℤ-discrete }

-- `v as i64` of a number of 64 bits without sign.
unfoldable pub as_i64 : ℕ → ℤ
as_i64 v = if ltb v (2 ^ 63) then pos v else negsuc (2 ^ 64 - v - 1)

-- `-n`
abbrev pub negated : ℕ → ℤ
negated zero = pos 0
negated (suc n) = negsuc n

-- The number of 64 bits with sign that has the lowest bits of `-n`.
wrapped_negative : ℕ → ℤ
wrapped_negative n = as_i64 ((2 ^ 64 - n % 2 ^ 64) % 2 ^ 64)

-- `v * k` on 64 bits, as in a release build.
unfoldable pub scaled : ℤ → ℕ → ℤ
unfolding as_i64 wrapped_negative
scaled (pos n) k = as_i64 ((n * k) % 2 ^ 64)
scaled (negsuc n) k = wrapped_negative ((n + 1) * k)

-- `v > 0`
abbrev pub is_positive : ℤ → Bool
is_positive (pos n) = ltb 0 n
is_positive (negsuc n) = false
