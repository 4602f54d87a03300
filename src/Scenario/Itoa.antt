-- ===== src/Scenario/Itoa.antt =====
-- `itoa` of internal/scenario/scenario.go, which writes into an array of 20 bytes from its end.
use poseidon_tests.Prelude.{
  ℕ, zero, suc, ◌+◌, ◌/◌, ◌%◌, ◌^◌, ◌≤◌, ◌<◌, ◌≡◌, refl, Option, none, some, [], ◌∷◌, arith, Bytes,
  ltb, ◌==◌, if◌then◌else◌, inl, inr, Bool-cases, not_pos, half,
}
use poseidon_tests.Go.Strconv.{digits, format, format-digits, tenth_lt}

-- The loop at index `i`, with `b[i:]` written so far. A write at index -1 is a panic, `none`.
unfoldable pub fill : ℕ → ℕ → Bytes → Option Bytes
fill zero n out = if not_pos n then some out else none
fill (suc i) n out =
    let rest = fill i (n / 10) ((b'0' + n % 10) % 256 ∷ out) in if not_pos n then some out else rest

unfoldable pub itoa : ℕ → Option Bytes
itoa n = if n == 0 then some (b'0' ∷ []) else fill 20 n []

fill-zero : (i : ℕ) (out : Bytes) → fill i 0 out ≡ some out
unfolding fill
fill-zero zero out = refl
fill-zero (suc i) out = refl

fill-digits :
    (i n : ℕ) (out : Bytes) → 0 < n → n < 10 ^ i → n < half → fill i n out ≡ some (digits i n out)
unfolding fill digits
fill-digits zero n out h k m = absurd (omega arith)
fill-digits (suc i) n out h k m = elim (Bool-cases (ltb n 10)) [
  | inl small ↦ ground (arith, fill-zero i ((b'0' + n) ∷ out))
  | inr large ↦ ground (arith, fill-digits i (n / 10) ((b'0' + n % 10) ∷ out), tenth_lt i n k)
]

-- For an `int` that is not negative the array is large enough, and the text is its decimal form.
pub itoa-format : (n : ℕ) → n < half → itoa n ≡ some (format n)
unfolding itoa
itoa-format zero h = unfold format digits in refl
itoa-format (suc n) h = ground (arith, fill-digits 20 (suc n) [], format-digits (suc n))

-- A negative `int` gives the empty text.
pub itoa-negative : (n : ℕ) → half ≤ n → itoa n ≡ some []
unfolding itoa fill
itoa-negative n h = ground arith
