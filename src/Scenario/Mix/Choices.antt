-- ===== src/Scenario/Mix/Choices.antt =====
-- What `Next` returns: total, in proportion to the weights, and with a body in the gRPC regime.
use poseidon_tests.Prelude.{
  ℕ, ◌<◌, ◌≡◌, refl, ◌∙◌, some, List, arith, half, get_elem?, get_elem?-some,
}
use poseidon_tests.Go.Rand.{Rand, checked_int_n}
use poseidon_tests.Weighted.Choice.{sum, expand, total-sum, pick-expand, length-expand}
use poseidon_tests.Scenario.{Weight, all}
use poseidon_tests.Scenario.Mix.{weight_of, or_default, scenario_at, Mix, new_mix, next}

-- Weights that sum to a positive `int`, and a total that is that sum.
pub record IsValid (r : Rand) (m : Mix r) : Type 0 where
  pub exact : m.total ≡ sum weight_of m.weights
  pub positive : 0 < sum weight_of m.weights
  pub bounded : sum weight_of m.weights < half

module _ (r : Rand) where
  pub new_mix-IsValid :
      (seed worker : ℕ) (ws : List Weight)
      → 0 < sum weight_of (or_default ws)
      → sum weight_of (or_default ws) < half
      → IsValid r (new_mix r seed worker ws)
  unfolding new_mix
  new_mix-IsValid seed worker ws p b = record {
    exact = total-sum weight_of (or_default ws) b;
    positive = p;
    bounded = b;
  }

  -- The number that `IntN` draws next.
  abbrev pub drawn : Mix r → ℕ
  drawn m = (r.int_n m.rng m.total).0

  checked_int_n-some :
      (g : r.Gen) (n : ℕ) → 0 < n → n < half → checked_int_n r g n ≡ some (r.int_n g n)
  checked_int_n-some g n p b = ground arith

  -- From a valid mix `Next` does not panic. It returns the scenario in whose share of the weights the
  -- drawn number lies, keeps the weights, and leaves a valid mix.
  pub next_lem :
      (m : Mix r)
      → IsValid r m
      → (w : Weight) × (m' : Mix r) × (next r m ≡ some (all w.kind, m'))
        × (get_elem? (expand weight_of m.weights) (drawn m) ≡ some w)
        × (m'.weights ≡ m.weights)
        × IsValid r m'
  unfolding next scenario_at
  next_lem m v =
      let low : drawn m < sum weight_of m.weights =
        omega (arith, r.int_n-lt m.rng m.total (omega arith)) in
      let (w, found) =
        get_elem?-some (expand weight_of m.weights) (drawn m)
          (omega (arith, length-expand weight_of m.weights)) in
      let picked = pick-expand weight_of m.weights (drawn m) v.bounded low ∙ found in
      (
        w,
        record m { rng = (r.int_n m.rng m.total).1 },
        rw (checked_int_n-some m.rng m.total (omega arith) (omega arith), picked) refl,
        found,
        refl,
        record { exact = v.exact; positive = v.positive; bounded = v.bounded },
      )
