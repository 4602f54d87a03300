-- ===== src/Go/Rand.antt =====
-- math/rand/v2 as the program uses it: a generator made by `rand.New(rand.NewPCG(a, b))`. The
-- streams are a parameter, with the ranges that the package documents as laws.
use poseidon_tests.Prelude.{ℕ, ◌<◌, Option, none, some, if◌then◌else◌, not_pos}

pub record Rand : Type 1 where
  pub Gen : Type 0
  pub Float : Type 0
  pub pcg : ℕ → ℕ → Gen
  pub int_n : Gen → ℕ → ℕ × Gen
  pub int64_n : Gen → ℕ → ℕ × Gen
  pub float64 : Gen → Float × Gen
  -- `rng.Float64() * 100`
  pub hundredfold : Float → Float
  pub int_n-lt : (g : Gen) (n : ℕ) → 0 < n → (int_n g n).0 < n
  pub int64_n-lt : (g : Gen) (n : ℕ) → 0 < n → (int64_n g n).0 < n

module _ (r : Rand) where
  open r use {Gen, int_n}

  -- `IntN` panics if its argument is not positive.
  abbrev pub checked_int_n : Gen → ℕ → Option (ℕ × Gen)
  checked_int_n g n = if not_pos n then none else some (int_n g n)
