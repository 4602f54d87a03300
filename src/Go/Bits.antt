-- ===== src/Go/Bits.antt =====
-- `|` of a shifted number and one that fits below it.
use Prim.Native.Nat.{max, digits, bit_or, bit_or-bitwise}
use native.Mathlib.Nat.{pow-suc, le_refl}
use poseidon_tests.Prelude.{ℕ, zero, suc, ◌+◌, ◌*◌, ◌/◌, ◌^◌, ◌≤◌, ◌<◌, ◌≡◌, refl, ap, ◌∙◌, arith}

abbrev or_digits : ℕ → ℕ → ℕ → ℕ
or_digits = digits (λ b. b) max

or_digits-zero : (n a : ℕ) → a ≤ n → or_digits n a 0 ≡ a
or_digits-zero zero a h = omega arith
or_digits-zero (suc n) zero h = refl
or_digits-zero (suc n) (suc a) h =
    let ih = or_digits-zero n (suc a / 2) (omega arith) in omega arith

-- On any count of digits that is enough for the left number.
or_digits-multiple : (k n a q r : ℕ) → r < 2 ^ k → a ≡ q * 2 ^ k → a ≤ n → or_digits n a r ≡ a + r
or_digits-multiple zero n a q r low e h =
    let none_below : r ≡ 0 = omega arith in rw none_below (or_digits-zero n a h ∙ omega arith)
or_digits-multiple (suc k) zero a q r low e h = omega arith
or_digits-multiple (suc k) (suc n) zero q r low e h = omega arith
or_digits-multiple (suc k) (suc n) (suc a) q r low e h =
    let doubled : suc a ≡ 2 * (q * 2 ^ k) =
      e ∙ omega (arith, ap (λ (t : ℕ). q * t) (pow-suc 2 k)) in
    let ih =
      or_digits-multiple k n (suc a / 2) q (r / 2) (omega (arith, pow-suc 2 k)) (omega arith)
        (omega arith) in
    omega arith

-- `high << k | low` is a sum where `low` fits below the shift.
pub bit_or-shifted : (k high low : ℕ) → low < 2 ^ k → bit_or (high * 2 ^ k) low ≡ high * 2 ^ k + low
bit_or-shifted k high low h =
    simp bit_or-bitwise
      (or_digits-multiple k (high * 2 ^ k) (high * 2 ^ k) high low h refl (le_refl _))
