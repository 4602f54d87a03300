-- ===== src/Scenario/Mix.antt =====
-- `Mix` of internal/scenario/scenario.go, over any generator; what it yields is proved below.
pub mod Choices
pub mod Frequency
pub mod Grpc
use poseidon_tests.Prelude.{ℕ, Option, some, ◌>>=◌, List, [], ◌∷◌}
use poseidon_tests.Go.Rand.{Rand, checked_int_n}
use poseidon_tests.Weighted
use poseidon_tests.Scenario.{Scenario, Weight, all, default_mix}

abbrev pub weight_of : Weight → ℕ
weight_of w = w.weight

-- `if len(weights) == 0 { weights = DefaultMix }`
abbrev pub or_default : List Weight → List Weight
or_default [] = default_mix
or_default (w ∷ ws) = w ∷ ws

-- The scenario that the drawn number `n` selects.
unfoldable pub scenario_at : List Weight → ℕ → Option Scenario
scenario_at ws n = do w ← Weighted.pick weight_of ws n; some (all w.kind)

pub record Mix (r : Rand) : Type 0 where
  pub weights : List Weight
  pub total : ℕ  -- int
  pub rng : r.Gen

module _ (r : Rand) where
  unfoldable pub new_mix : ℕ → ℕ → List Weight → Mix r
  new_mix seed worker weights = record {
    weights = or_default weights;
    total = Weighted.total weight_of (or_default weights);
    rng = r.pcg seed worker;
  }

  -- `none` is a panic of `IntN` or of an index out of range.
  unfoldable pub next : Mix r → Option (Scenario × Mix r)
  next m = do
    (n, rng) ← checked_int_n r m.rng m.total
    sc ← scenario_at m.weights n
    some (sc, record m { rng = rng })
