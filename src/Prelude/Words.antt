-- ===== src/Prelude/Words.antt =====
-- 64-bit words. A Go `uint64` is a number below 2 ^ 64. A Go `int` is the same bit pattern, read as
-- negative from 2 ^ 63 on, so that the conversions between the two are the identity.
use Prim.Native.Nat.{ℕ, ◌+◌, ◌-◌, ◌*◌, ◌%◌, ◌^◌, ◌<◌}
use mathlib.Core.Path.{◌≡◌}
use mathlib.Core.Bool.{Bool, ◌||◌}
use native.Mathlib.Omega.{arith}
use package.poseidon_tests.Prelude.Tests.{ltb, leb, ◌==◌}

abbrev pub word : ℕ
word = 2 ^ 64

-- The first pattern that stands for a negative `int`.
abbrev pub half : ℕ
half = 2 ^ 63

abbrev pub add64 : ℕ → ℕ → ℕ
add64 a b = (a + b) % word

abbrev pub sub64 : ℕ → ℕ → ℕ
sub64 a b = (a + word - b) % word

abbrev pub mul64 : ℕ → ℕ → ℕ
mul64 a b = (a * b) % word

-- The signed tests `a < 0`, `a <= 0` and `a < b`.
abbrev pub is_neg : ℕ → Bool
is_neg a = leb half a

abbrev pub not_pos : ℕ → Bool
not_pos a = a == 0 || is_neg a

abbrev pub slt : ℕ → ℕ → Bool
slt a b = ltb (add64 a half) (add64 b half)

-- A difference of two readings of a counter brings the later reading back, through any wrap.
pub add64-sub64 : (a b : ℕ) → a < word → b < word → add64 a (sub64 b a) ≡ b
add64-sub64 a b ha hb = omega arith
