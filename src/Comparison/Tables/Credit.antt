-- ===== src/Comparison/Tables/Credit.antt =====
-- A replicated table credits poseidon only with what every replicate shows.
use poseidon_tests.Prelude.{
  ℕ, ◌<◌, ◌≡◌, inl, inr, ap, subst, arith, true, false, List, [], ◌∷◌, foldl, Bytes, All-map,
  length, suc,
}
use poseidon_tests.Comparison.Numbers.{Numbers, zero_number, total_of}
use poseidon_tests.Comparison.Tables.{Metric, poseidon_better, row}
use poseidon_tests.Comparison.Tables.Separation.{AllBelow, IsOrder, irreflexive}
use poseidon_tests.Comparison.Tables.Winners.{mean_of, row-winner}

-- What rounding keeps of the order: sums, and quotients by a positive count, do not turn it around.
pub record IsMonotone (py : Numbers) : Type 0 where
  pub add_mono :
      (a a' b b' : py.Number)
      → py.lt a' a ≡ false
      → py.lt b' b ≡ false
      → py.lt (py.add a' b') (py.add a b) ≡ false
  pub div_mono :
      (a a' : py.Number) (k : ℕ)
      → 0 < k
      → py.lt a' a ≡ false
      → py.lt (py.div a' (py.of_nat k)) (py.div a (py.of_nat k)) ≡ false

module _ (py : Numbers) (order : IsOrder py) (mono : IsMonotone py) where
  -- Of as many samples, lower ones have no greater sum.
  foldl-le :
      (ys xs : List py.Number) (b a : py.Number)
      → length ys ≡ length xs
      → AllBelow py ys xs
      → py.lt a b ≡ false
      → py.lt (foldl py.add a xs) (foldl py.add b ys) ≡ false
  foldl-le [] [] b a long below h = h
  foldl-le [] (x ∷ xs) b a long below h = absurd (omega (arith, long))
  foldl-le (y ∷ ys) [] b a long below h = absurd (omega (arith, long))
  foldl-le (y ∷ ys) (x ∷ xs) b a long below h =
      foldl-le ys xs (py.add b y) (py.add a x) (omega (arith, long))
        (All-map (λ z h'. h'.1) ys below.1)
        (mono.add_mono b a y x h (order.asymmetric y x below.0.0))

  module _ (x x' : py.Number) (xs : List py.Number) (y y' : py.Number) (ys : List py.Number) where
    mean-le :
        length xs ≡ length ys
        → AllBelow py (y ∷ y' ∷ ys) (x ∷ x' ∷ xs)
        → py.lt (mean_of py x x' xs) (mean_of py y y' ys) ≡ false
    mean-le long below =
        subst
          (λ k.
            py.lt (mean_of py x x' xs) (py.div (total_of py (y ∷ y' ∷ ys)) (py.of_nat k)) ≡ false)
          (ap (λ k. suc (suc k)) long)
          (mono.div_mono (total_of py (y ∷ y' ∷ ys)) (total_of py (x ∷ x' ∷ xs))
            (length (x ∷ x' ∷ xs)) (omega arith)
            (foldl-le (y ∷ y' ∷ ys) (x ∷ x' ∷ xs) (zero_number py) (zero_number py)
              (omega (arith, long)) below (irreflexive py order (zero_number py))))

    -- For numbers in order, of which rounding turns no sum and no mean around, and for as many replicates
    -- of either arm, at least two: a row that calls poseidon better has every sample of poseidon below
    -- every sample of the baseline.
    pub poseidon_wins :
        (regime : Bytes) (m : Metric)
        → length xs ≡ length ys
        → (row py true regime (x ∷ x' ∷ xs) (y ∷ y' ∷ ys) m).verdict ≡ poseidon_better
        → AllBelow py (x ∷ x' ∷ xs) (y ∷ y' ∷ ys)
    poseidon_wins regime m long claimed =
        let (apart, lower) = (row-winner py x x' xs y y' ys order regime m).1.0 claimed in
        elim apart [ inl below ↦ below | inr above ↦ cc (lower, mean-le long above) ]
