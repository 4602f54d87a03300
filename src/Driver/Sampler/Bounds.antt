-- ===== src/Driver/Sampler/Bounds.antt =====
-- What the sampler reports of the readings of the plateau.
use native.Mathlib.Nat.{mul-le-mul_left, le-div_iff_mul-le, div-le_of_le-mul}
use Prim.Native.Nat.{max}
use poseidon_tests.Prelude.{
  ◌*◌, ◌≤◌, All, ℕ, ◌+◌, ◌/◌, ◌<◌, ◌≡◌, ◌∙◌, subst, List, [], ◌∷◌, arith, word, length,
  if◌then◌else◌, ltb, Bool-cases, inl, inr,
}
use poseidon_tests.Go.Floats.{Floats}
use poseidon_tests.Weighted.Choice.{sum}
use poseidon_tests.SelfMetrics.{Snapshot}
use poseidon_tests.Driver.Sampler.{
  Sampler, new_sampler, Tick, mem_of, add_reading, on_tick, run, result,
}

module _ (fl : Floats) where
  -- The snapshots of the ticks that do not come before the plateau.
  unfoldable pub readings : ℕ → List (Tick fl) → List (Snapshot fl)
  readings plateau_start [] = []
  readings plateau_start (t ∷ ts) =
      let rest = readings plateau_start ts in
      if ltb t.now plateau_start then rest else t.snap ∷ rest

  abbrev pub heap_of : Snapshot fl → ℕ
  heap_of snap = snap.heap_objects_bytes

  unfoldable pub highest : List (Snapshot fl) → ℕ
  highest [] = 0
  highest (x ∷ xs) = max (mem_of fl x) (highest xs)

  abbrev pub mean : (Snapshot fl → ℕ) → List (Snapshot fl) → ℕ
  mean f xs = sum f xs / length xs

  -- The sums and the number of the readings stay below 2 ^ 64.
  abbrev pub Fits : Sampler → List (Snapshot fl) → Type 0
  Fits s xs =
      (s.rss_sum + sum (mem_of fl) xs < word)
      × (s.heap_sum + sum heap_of xs < word)
      × (s.n + length xs < word)

  abbrev plus : Sampler → List (Snapshot fl) → Sampler
  plus s xs = record {
    rss_sum = s.rss_sum + sum (mem_of fl) xs;
    heap_sum = s.heap_sum + sum heap_of xs;
    n = s.n + length xs;
    rss_peak = max s.rss_peak (highest xs);
  }

  sampler_eq :
      (s t : Sampler)
      → s.rss_sum ≡ t.rss_sum
      → s.heap_sum ≡ t.heap_sum
      → s.n ≡ t.n
      → s.rss_peak ≡ t.rss_peak
      → s ≡ t
  sampler_eq s t a b c d i = record { rss_sum = a i; heap_sum = b i; n = c i; rss_peak = d i }

  peak-max : (p m h : ℕ) → max (if ltb p m then m else p) h ≡ max p (max m h)
  peak-max p m h = ground arith

  plus-cons :
      (s : Sampler) (x : Snapshot fl) (xs : List (Snapshot fl))
      → Fits s (x ∷ xs)
      → Fits (add_reading fl x s) xs × (plus (add_reading fl x s) xs ≡ plus s (x ∷ xs))
  unfolding add_reading sum highest
  plus-cons s x xs (rss_fits, heap_fits, n_fits) = (
    (omega arith, omega arith, omega arith),
    sampler_eq _ _ (omega arith) (omega arith) (omega arith)
        (peak-max s.rss_peak (mem_of fl x) (highest xs)),
  )

  run-plus :
      (plateau_start : ℕ) (ts : List (Tick fl)) (s : Sampler)
      → Fits s (readings plateau_start ts)
      → run fl plateau_start ts s ≡ plus s (readings plateau_start ts)
  unfolding run readings on_tick
  run-plus plateau_start [] s fits =
      unfold sum highest in sampler_eq _ _ (omega arith) (omega arith) (omega arith) (omega arith)
  run-plus plateau_start (t ∷ ts) s fits = elim (Bool-cases (ltb t.now plateau_start)) [
    | inl early ↦ rw early (
        run-plus plateau_start ts s (
          subst
            (λ b.
              Fits s
                (if b then readings plateau_start ts else (t.snap ∷ readings plateau_start ts)))
            early fits))
    | inr late ↦
        let (more_fits, same) = plus-cons s t.snap (readings plateau_start ts) (
          subst
            (λ b.
              Fits s
                (if b then readings plateau_start ts else (t.snap ∷ readings plateau_start ts)))
            late fits) in
        rw late (run-plus plateau_start ts (add_reading fl t.snap s) more_fits ∙ same)
  ]

  -- While the sums stay below 2 ^ 64, the result is the mean and the maximum of the resident memory
  -- and the mean of the heap, over exactly the readings that do not come before the plateau, and
  -- zeros where there are none.
  pub result-run :
      (plateau_start : ℕ) (ts : List (Tick fl))
      → Fits new_sampler (readings plateau_start ts)
      → result (run fl plateau_start ts new_sampler) ≡ (
        mean (mem_of fl) (readings plateau_start ts),
        highest (readings plateau_start ts),
        mean heap_of (readings plateau_start ts),
      )
  unfolding result new_sampler
  result-run plateau_start ts fits = rw (run-plus plateau_start ts new_sampler fits) (ground arith)

  sum-le_highest : (xs : List (Snapshot fl)) → sum (mem_of fl) xs ≤ length xs * highest xs
  unfolding sum highest
  sum-le_highest [] = omega arith
  sum-le_highest (x ∷ xs) =
      let top = max (mem_of fl x) (highest xs) in
      let higher : length xs * highest xs ≤ length xs * top =
        mul-le-mul_left (length xs) (omega arith) in
      omega (arith, higher, sum-le_highest xs)

  le-sum :
      (f : Snapshot fl → ℕ) (lo : ℕ) (xs : List (Snapshot fl))
      → All (λ x. lo ≤ f x) xs
      → lo * length xs ≤ sum f xs
  unfolding sum
  le-sum f lo [] h = omega arith
  le-sum f lo (x ∷ xs) h = omega (arith, le-sum f lo xs h.1)

  -- While the sums stay below 2 ^ 64, and where there is a reading of the plateau, the reported
  -- average is no more than the reported peak, and no lower bound of all readings is above the
  -- average.
  pub result_bounds :
      (plateau_start : ℕ) (ts : List (Tick fl)) (lo : ℕ)
      → Fits new_sampler (readings plateau_start ts)
      → 0 < length (readings plateau_start ts)
      → All (λ snap. lo ≤ mem_of fl snap) (readings plateau_start ts)
      → (lo ≤ (result (run fl plateau_start ts new_sampler)).0)
        × ((result (run fl plateau_start ts new_sampler)).0
            ≤ (result (run fl plateau_start ts new_sampler)).1)
  result_bounds plateau_start ts lo fits some_there low =
      let xs = readings plateau_start ts in
      rw (result-run plateau_start ts fits) (
        (le-div_iff_mul-le some_there).1 (le-sum (mem_of fl) lo xs low),
        div-le_of_le-mul (length xs) (sum-le_highest xs),
      )
