-- ===== src/Go/Floats.antt =====
-- float64 and `time.Duration.Seconds`, as a parameter: the program's results in floating point are
-- stated in terms of its operations.
use poseidon_tests.Prelude.{ℕ, Bool}

pub record Floats : Type 1 where
  pub Float : Type 0
  -- `float64(n)` of a uint64, and of an int64
  pub of_uint : ℕ → Float
  pub of_int : ℕ → Float
  -- the literal `num / den`
  pub lit : (num den : ℕ) → Float
  pub add : Float → Float → Float
  pub sub : Float → Float → Float
  pub mul : Float → Float → Float
  pub div : Float → Float → Float
  -- `<`
  pub lt : Float → Float → Bool
  -- `<=`
  pub le : Float → Float → Bool
  -- the conversion to an int64
  pub to_int : Float → ℕ
  -- `d.Seconds()` of a duration in nanoseconds
  pub seconds : ℕ → Float
