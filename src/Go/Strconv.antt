-- ===== src/Go/Strconv.antt =====
-- strconv: the decimal text of a number below 2 ^ 64, `ParseUint(s, 10, 64)` and `Atoi`. A result
-- `(v, err)` is an `Option`, as the program only asks whether there was an error.
use native.Mathlib.Nat.{pow-suc}
use poseidon_tests.Prelude.{
  ℕ, zero, suc, ◌+◌, ◌-◌, ◌*◌, ◌/◌, ◌%◌, ◌^◌, ◌≤◌, ◌<◌, ◌≡◌, refl, ◌≢◌, ◌∙◌, ap, Bool, false, [],
  ◌∷◌, Option, none, some, arith, Bytes, ltb, leb, ◌==◌, if◌then◌else◌, word, half, All, codes, inl,
  inr, Bool-cases,
}

-- Digits in front of `out`, at most `fuel` of them.
unfoldable pub digits : ℕ → ℕ → Bytes → Bytes
digits zero n out = out
digits (suc fuel) n out =
    let rest = digits fuel (n / 10) ((b'0' + n % 10) ∷ out) in
    if ltb n 10 then (b'0' + n) ∷ out else rest

-- Twenty digits are enough below 2 ^ 64.
unfoldable pub format : ℕ → Bytes
format n = digits 20 n []

abbrev pub is_digit : ℕ → Bool
is_digit c = if ltb c b'0' then false else leb c b'9'

-- The digits read so far are worth `n`; the result must stay below `limit`.
pub scan : ℕ → Bytes → ℕ → Option ℕ
scan limit [] n = some n
scan limit (c ∷ s) n =
    let m = n * 10 + (c - b'0') in
    let rest = scan limit s m in if is_digit c then (if ltb m limit then rest else none) else none

unfoldable pub parse_uint : Bytes → Option ℕ
unfolding scan
parse_uint [] = none
parse_uint (c ∷ s) = scan word (c ∷ s) 0

abbrev negate : Option ℕ → Option ℕ
negate none = none
negate (some n) = some ((word - n) % word)

-- A number behind its sign; there must be a digit.
abbrev magnitude : ℕ → Bytes → Option ℕ
magnitude limit [] = none
magnitude limit (c ∷ s) = scan limit (c ∷ s) 0

-- An `int`: an optional sign, then digits, within the range of 64 bits.
unfoldable pub atoi : Bytes → Option ℕ
unfolding scan
atoi [] = none
atoi (c ∷ s) =
    if c == b'-'
    then negate (magnitude (half + 1) s)
    else if c == b'+'
    then magnitude half s
    else magnitude half (c ∷ s)

abbrev pub IsDigit : ℕ → Type 0
IsDigit c = (b'0' ≤ c) × (c ≤ b'9')

digits-IsDigit : (fuel n : ℕ) (out : Bytes) → All IsDigit out → All IsDigit (digits fuel n out)
unfolding digits
digits-IsDigit zero n out h = h
digits-IsDigit (suc fuel) n out h = elim (Bool-cases (ltb n 10)) [
  | inl small ↦ rw small (ground arith, h)
  | inr large ↦ rw large (digits-IsDigit fuel (n / 10) ((b'0' + n % 10) ∷ out) (omega arith, h))
]

pub format-digits : (n : ℕ) → format n ≡ digits 20 n []
unfolding format
format-digits n = refl

pub format-IsDigit : (n : ℕ) → All IsDigit (format n)
unfolding format
format-IsDigit n = digits-IsDigit 20 n [] tt

-- One more digit, read behind the digits before it.
scan_digit :
    (limit n : ℕ) (out : Bytes)
    → n < limit
    → scan limit ((b'0' + n % 10) ∷ out) (n / 10) ≡ scan limit out n
unfolding scan
scan_digit limit n out h = ground arith

pub tenth_lt : (fuel n : ℕ) → n < 10 ^ suc fuel → n / 10 < 10 ^ fuel
tenth_lt fuel n h = omega (arith, pow-suc 10 fuel)

-- Reading back the digits of `n` is reading on behind `n`.
scan-digits :
    (fuel limit n : ℕ) (out : Bytes)
    → n < limit
    → n < 10 ^ fuel
    → scan limit (digits fuel n out) 0 ≡ scan limit out n
unfolding digits
scan-digits zero limit n out h k = ap (scan limit out) (omega arith)
scan-digits (suc fuel) limit n out h k = elim (Bool-cases (ltb n 10)) [
  | inl small ↦ rw small (unfold scan in ground arith)
  | inr large ↦ rw large (
      scan-digits fuel limit (n / 10) ((b'0' + n % 10) ∷ out) (omega arith) (tenth_lt fuel n k)
      ∙ scan_digit limit n out h)
]

digits-ne-nil : (fuel n c : ℕ) (out : Bytes) → digits fuel n (c ∷ out) ≢ []
unfolding digits
digits-ne-nil zero n c out = λ e. cc
digits-ne-nil (suc fuel) n c out = elim (Bool-cases (ltb n 10)) [
  | inl small ↦ rw small (λ e. cc)
  | inr large ↦ rw large (digits-ne-nil fuel (n / 10) (b'0' + n % 10) (c ∷ out))
]

pub format-ne-nil : (n : ℕ) → format n ≢ []
unfolding format digits
format-ne-nil n = ground (arith, digits-ne-nil 19 (n / 10) (b'0' + n % 10) [])

parse_uint-scan : (s : Bytes) → s ≢ [] → parse_uint s ≡ scan word s 0
unfolding parse_uint
parse_uint-scan [] h = absurd (h refl)
parse_uint-scan (c ∷ s) h = refl

atoi-scan : (s : Bytes) → s ≢ [] → All IsDigit s → atoi s ≡ scan half s 0
unfolding atoi
atoi-scan [] h d = absurd (h refl)
atoi-scan (c ∷ s) h d = ground arith

scan-format : (limit n : ℕ) → n < limit → n < word → scan limit (format n) 0 ≡ some n
unfolding format
scan-format limit n h k = scan-digits 20 limit n [] h (omega arith) ∙ unfold scan in refl

-- A number below 2 ^ 64 is read back from its text.
pub parse_uint-format : (n : ℕ) → n < word → parse_uint (format n) ≡ some n
parse_uint-format n h = parse_uint-scan _ (format-ne-nil n) ∙ scan-format word n h h

-- So is an `int` that is not negative.
pub atoi-format : (n : ℕ) → n < half → atoi (format n) ≡ some n
atoi-format n h =
    atoi-scan _ (format-ne-nil n) (format-IsDigit n) ∙ scan-format half n h (omega arith)

reads_minus : atoi (codes "-12") ≡ some (word - 12)
unfolding atoi
reads_minus = refl
