-- ===== src/Comparison/Tables/Winners.antt =====
-- The verdicts of the tables' rows.
use poseidon_tests.Prelude.{
  ◌≡◌, ◌↔◌, ◌⊎◌, inl, inr, refl, Bool, true, false, List, ◌∷◌, Option, some, Bytes, if◌then◌else◌,
  Bool-cases, length, ◌&&◌,
}
use poseidon_tests.Comparison.Numbers.{Numbers, zero_number, mean, total_of}
use poseidon_tests.Comparison.Tables.{
  Metric, cpu_millicores, rss_avg, rss_peak, allocs_per_request, bytes_per_request, Verdict,
  below_floor, about_equal, overlapping, poseidon_better, standard_better, verdict_of, floor_of,
  row, rescore, separated,
}
use poseidon_tests.Comparison.Tables.Separation.{
  AllBelow, IsOrder, separated_iff, trans, irreflexive,
}

-- The metrics that are measured by samples, and have a floor of noise.
abbrev pub is_noisy : Metric → Bool
is_noisy cpu_millicores = true
is_noisy rss_avg = true
is_noisy rss_peak = true
is_noisy allocs_per_request = false
is_noisy bytes_per_request = false

module _ (py : Numbers) where
  -- The arm with the lower value.
  abbrev pub lower_arm : py.Number → Verdict
  lower_arm delta = if py.lt delta (zero_number py) then poseidon_better else standard_better

  -- The tests of a metric with a floor of noise, and those of one without.
  noisy_verdict :
      (below_ten below_five : Bool) (v : Verdict)
      → (below_five ≡ true → below_ten ≡ true)
      → (if below_ten && true
          then below_floor
          else (if below_five then about_equal else (if below_ten then below_floor else v)))
        ≡ (if below_ten then below_floor else v)
  noisy_verdict true b v h = refl
  noisy_verdict false true v h = cc (h refl)
  noisy_verdict false false v h = refl

  plain_verdict :
      (below_five : Bool) (v : Verdict)
      → (if below_five && false
          then below_floor
          else (if below_five then about_equal else (if below_five then below_floor else v)))
        ≡ (if below_five then about_equal else v)
  plain_verdict true v = refl
  plain_verdict false v = refl

  -- For numbers in order, with 5 below 10: of a metric with a floor of noise a difference below 10
  -- percent has no verdict, and is never called equal; of any other, one below 5 percent is called
  -- equal; and from there on the arm with the lower value is better.
  pub verdict_of_lem :
      (order : IsOrder py) (m : Metric) (delta : py.Number)
      → py.lt (py.lit 5 1) (py.lit 10 1) ≡ true
      → verdict_of py m delta ≡ (
          if is_noisy m
          then (if py.lt (py.abs delta) (py.lit 10 1) then below_floor else lower_arm delta)
          else (if py.lt (py.abs delta) (py.lit 5 1) then about_equal else lower_arm delta))
  unfolding verdict_of floor_of
  verdict_of_lem order m delta less = go m
    where
      wider : py.lt (py.abs delta) (py.lit 5 1) ≡ true → py.lt (py.abs delta) (py.lit 10 1) ≡ true
      wider h = trans py order (py.abs delta) (py.lit 5 1) (py.lit 10 1) h less

      noisy :
          (if py.lt (py.abs delta) (py.lit 10 1) && py.lt (py.lit 5 1) (py.lit 10 1)
            then below_floor
            else (if py.lt (py.abs delta) (py.lit 5 1)
                then about_equal
                else (if py.lt (py.abs delta) (py.lit 10 1) then below_floor else lower_arm delta)))
          ≡ (if py.lt (py.abs delta) (py.lit 10 1) then below_floor else lower_arm delta)
      noisy = rw less (noisy_verdict _ _ (lower_arm delta) wider)

      plain :
          (if py.lt (py.abs delta) (py.lit 5 1) && py.lt (py.lit 5 1) (py.lit 5 1)
            then below_floor
            else (if py.lt (py.abs delta) (py.lit 5 1)
                then about_equal
                else (if py.lt (py.abs delta) (py.lit 5 1) then below_floor else lower_arm delta)))
          ≡ (if py.lt (py.abs delta) (py.lit 5 1) then about_equal else lower_arm delta)
      plain = rw (irreflexive py order (py.lit 5 1)) (plain_verdict _ (lower_arm delta))

      go :
          (m : Metric)
          → verdict_of py m delta ≡ (
              if is_noisy m
              then (if py.lt (py.abs delta) (py.lit 10 1) then below_floor else lower_arm delta)
              else (if py.lt (py.abs delta) (py.lit 5 1) then about_equal else lower_arm delta))
      go cpu_millicores = noisy
      go rss_avg = noisy
      go rss_peak = noisy
      go allocs_per_request = plain
      go bytes_per_request = plain

  -- The verdict of two series that are known to lie apart or not.
  rescore-winner :
      {Apart : Type 0} (apart : Bool) (p q : py.Number) (v : Verdict)
      → (◌≡◌ {A = Option Bool} (some apart) (some true)) ↔ Apart
      → ((rescore py (some apart) (some p) (some q) v ≡ overlapping) ↔ (¬ Apart))
        × ((rescore py (some apart) (some p) (some q) v ≡ poseidon_better)
            ↔ (Apart × (py.lt p q ≡ true)))
        × ((rescore py (some apart) (some p) (some q) v ≡ standard_better)
            ↔ (Apart × (py.lt p q ≡ false)))
  unfolding rescore
  rescore-winner false p q v apart_iff = (
    (λ e h. cc (apart_iff.1 h), λ h. refl),
    (λ e. cc, λ h. cc (apart_iff.1 h.0)),
    (λ e. cc, λ h. cc (apart_iff.1 h.0)),
  )
  rescore-winner true p q v apart_iff = elim (Bool-cases (py.lt p q)) [
    | inl lower ↦ rw lower (
      (λ e. cc, λ h. absurd (h (apart_iff.0 refl))),
      (λ e. (apart_iff.0 refl, refl), λ h. refl),
      (λ e. cc, λ h. cc (h.1)),
    )
    | inr higher ↦ rw higher (
      (λ e. cc, λ h. absurd (h (apart_iff.0 refl))),
      (λ e. cc, λ h. cc (h.1)),
      (λ e. (apart_iff.0 refl, refl), λ h. refl),
    )
  ]

  abbrev pub mean_of : py.Number → py.Number → List py.Number → py.Number
  mean_of v v' vs = py.div (total_of py (v ∷ v' ∷ vs)) (py.of_nat (length (v ∷ v' ∷ vs)))

  module _ (x x' : py.Number) (xs : List py.Number) (y y' : py.Number) (ys : List py.Number) where
    -- All samples of one arm are below all samples of the other.
    abbrev pub Apart : Type 0
    Apart = AllBelow py (x ∷ x' ∷ xs) (y ∷ y' ∷ ys) ⊎ AllBelow py (y ∷ y' ∷ ys) (x ∷ x' ∷ xs)

    -- For numbers in order, a replicated row of two samples or more on each side claims a winner exactly
    -- if all samples of one arm are below all of the other, and then the arm with the lower mean;
    -- otherwise, and only then, it says that the ranges overlap.
    pub row-winner :
        (order : IsOrder py) (regime : Bytes) (m : Metric)
        → let verdict = (row py true regime (x ∷ x' ∷ xs) (y ∷ y' ∷ ys) m).verdict in
          let lower = py.lt (mean_of x x' xs) (mean_of y y' ys) in
          ((verdict ≡ overlapping) ↔ (¬ Apart))
          × ((verdict ≡ poseidon_better) ↔ (Apart × (lower ≡ true)))
          × ((verdict ≡ standard_better) ↔ (Apart × (lower ≡ false)))
    unfolding row mean separated
    row-winner order regime m =
        rescore-winner _ (mean_of x x' xs) (mean_of y y' ys) _
          (separated_iff py order x x' xs y y' ys)
