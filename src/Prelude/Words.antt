-- ===== src/Prelude/Words.antt =====
-- `int64` as its 64-bit pattern: sums and differences wrap, and the order is the signed one.
use Prim.Native.Nat.{ℕ, ◌+◌, ◌-◌, ◌*◌, ◌/◌, ◌%◌, ◌≤◌, ◌<◌}
use mathlib.Core.Path.{◌≡◌}
use mathlib.Core.Bool.{Bool, true}
use native.Mathlib.Omega.{arith}
use smoothnas.Prelude.Tests.{leb, if◌then◌else◌}

-- 2 ^ 63 and 2 ^ 64.
abbrev pub i63 : ℕ
i63 = 9223372036854775808

abbrev pub i64 : ℕ
i64 = 18446744073709551616

unfoldable pub add64 : ℕ → ℕ → ℕ
add64 a b = (a + b) % i64

unfoldable pub sub64 : ℕ → ℕ → ℕ
sub64 a b = (a + i64 - b) % i64

unfoldable pub mul64 : ℕ → ℕ → ℕ
mul64 a b = a * b % i64

-- The sign bit.
unfoldable pub is_neg64 : ℕ → Bool
is_neg64 a = leb i63 a

-- Signed `a <= b`: flipping the sign bit turns it into the order of the patterns.
unfoldable pub le64 : ℕ → ℕ → Bool
le64 a b = leb ((a + i63) % i64) ((b + i63) % i64)

-- Go's `/` by a positive number rounds towards zero.
unfoldable pub div64 : ℕ → ℕ → ℕ
unfolding is_neg64
div64 a d = if is_neg64 a then (i64 - (i64 - a) / d) % i64 else a / d

pub add64_exact : (a b : ℕ) → a + b < i63 → add64 a b ≡ a + b
unfolding add64
add64_exact a b h = omega arith

pub sub64_exact : (a b : ℕ) → b ≤ a → a < i63 → sub64 a b ≡ a - b
unfolding sub64
sub64_exact a b h k = omega arith

pub le64→le : (a b : ℕ) → a < i63 → b < i63 → le64 a b ≡ true → a ≤ b
unfolding le64
le64→le a b ha hb h = ground arith

pub le→le64 : (a b : ℕ) → a ≤ b → b < i63 → le64 a b ≡ true
unfolding le64
le→le64 a b h k = ground arith
