-- ===== src/Comparison/Validity.antt =====
-- `validity_findings`: the reasons why a comparison might not be trustworthy. A finding is kept as the
-- values that its message prints.
pub mod Later
use poseidon_tests.Prelude.{
  Bool, true, false, ◌&&◌, ◌||◌, List, [], ◌∷◌, ◌++◌, map, Option, none, some, ◌>>=◌, Bytes, codes,
  if◌then◌else◌, ltb, ◌==◌,
}
use poseidon_tests.Comparison.Numbers.{Numbers, zero_number, relative_gap_pct}
use poseidon_tests.Comparison.Value.{
  Value, get, number, on, dict_of, text_of, is_false, sample_of, plateau_seconds,
}
use poseidon_tests.Comparison.Dict.{cell_key, name_key, Cell, cell_eq, find}
use poseidon_tests.Comparison.Cells.{regimes, cells, poseidon, standard, flat_map}
use poseidon_tests.Comparison.Loading.{Loaded}

-- `<` on texts
abbrev before : Bytes → Bytes → Bool
before [] [] = false
before [] (_ ∷ _) = true
before (_ ∷ _) [] = false
before (c ∷ s) (d ∷ t) = ltb c d || (c == d && before s t)

module _ {A : Type 0} where
  insert : Bytes × A → List (Bytes × A) → List (Bytes × A)
  insert e [] = e ∷ []
  insert e (f ∷ es) = let rest = insert e es in if before f.0 e.0 then f ∷ rest else e ∷ f ∷ es

  -- The entries of a dict in the order of `sorted`, by their names.
  unfoldable pub sorted : List (Bytes × A) → List (Bytes × A)
  unfolding insert
  sorted [] = []
  sorted (e ∷ es) = insert e (sorted es)

abbrev pub in_set : Cell → List Cell → Bool
in_set c [] = false
in_set c (d ∷ ds) = cell_eq d c || in_set c ds

module _ (py : Numbers) where
  pub data Finding : Type 0 where
    could_not_read : (name reason : Bytes) → Finding
    unrecognized : (name : Bytes) → Finding
    unusable missing : Cell → Finding
    errored : Cell → (errors : py.Number) (sample : Option Bytes) → Finding
    body_differs requests_differ rates_differ :
        (regime : Bytes) (gap poseidon_value standard_value : py.Number) → Finding
    clock_drifted : Cell → (drift wall monotonic : py.Number) → Finding
    stale_window : Cell → (window monotonic cycles : Option py.Number) → Finding
    off_target : Cell → (achieved target : py.Number) → Finding
    no_requests no_rates : (regime : Bytes) → Finding

  abbrev Runs : Type 0
  Runs = List (Cell × Value py)

  abbrev pub body_tolerance_pct : py.Number
  body_tolerance_pct = py.lit 1 2

  abbrev pub clock_drift_pct : py.Number
  clock_drift_pct = py.lit 1 1

  abbrev pub pair_tolerance_pct : py.Number
  pair_tolerance_pct = py.lit 2 1

  unfoldable pub missing_check : Runs → List Cell → Cell → List Finding
  unfolding find cell_eq
  missing_check runs unreadable c = elim (find c runs) [
    | some r ↦ []
    | none ↦ (if in_set c unreadable then unusable c else missing c) ∷ []
  ]

  unfoldable pub errors_of : Cell → Value py → List Finding
  unfolding number sample_of
  errors_of c r =
      on (number py r (codes "plateau_errors"))
        λ n. if py.lt (zero_number py) n then errored c n (sample_of py r) ∷ [] else []

  unfoldable pub body_gap : Bytes → Value py → Value py → List Finding
  unfolding number relative_gap_pct
  body_gap regime p s = on (number py p (codes "plateau_body_bytes")) λ pb.
      on (number py s (codes "plateau_body_bytes")) λ sb.
        on (relative_gap_pct py (some pb) (some sb))
          λ gap. if py.lt body_tolerance_pct gap then body_differs regime gap pb sb ∷ [] else []

  -- `wall_seconds`
  abbrev pub wall_seconds : Option (Value py) → Option (Value py) → Option py.Number
  wall_seconds start end = do
    s ← start >>= text_of py
    e ← end >>= text_of py
    py.seconds_between e s

  -- The wall-clock and the monotonic length of the plateau, where a report has both.
  unfoldable pub clocks_of : Value py → Option (py.Number × py.Number)
  unfolding get plateau_seconds
  clocks_of r = do
    start ← get py r (codes "plateau_start_snapshot") >>= dict_of py
    end ← get py r (codes "plateau_end_snapshot") >>= dict_of py
    wall ← wall_seconds (get py start (codes "at")) (get py end (codes "at"))
    monotonic ← plateau_seconds py r
    if py.le monotonic (zero_number py) then none else some (wall, monotonic)

  abbrev pub drift_pct : py.Number → py.Number → py.Number
  drift_pct wall monotonic = py.mul (py.div (py.sub wall monotonic) monotonic) (py.lit 100 1)

  unfoldable pub drift_of : Cell → Value py → List Finding
  unfolding clocks_of
  drift_of c r = on (clocks_of r) λ clocks.
      let (wall, monotonic) = clocks in
      if py.lt clock_drift_pct (drift_pct wall monotonic)
      then clock_drifted c (drift_pct wall monotonic) wall monotonic ∷ []
      else []

  unfoldable pub window_of : Cell → Value py → List Finding
  unfolding get number plateau_seconds
  window_of c r =
      if is_false py (get py r (codes "cpu_runtime_valid"))
      then stale_window c (number py r (codes "cpu_runtime_window_seconds")) (plateau_seconds py r)
          (number py r (codes "gc_cycles"))
        ∷ []
      else []

  -- The achieved rate and the target, where a report has both and the target is positive.
  unfoldable pub rates_of : Value py → Option (py.Number × py.Number)
  unfolding get number
  rates_of r = do
    achieved ← number py r (codes "achieved_rps")
    profile ← get py r (codes "profile") >>= dict_of py
    target ← number py profile (codes "target_rps")
    if py.le target (zero_number py) then none else some (achieved, target)

  abbrev pub off_pct : py.Number → py.Number → py.Number
  off_pct achieved target = py.mul (py.div (py.abs (py.sub achieved target)) target) (py.lit 100 1)

  unfoldable pub target_of : Cell → Value py → List Finding
  unfolding rates_of
  target_of c r = on (rates_of r) λ rates.
      let (achieved, target) = rates in
      if py.lt pair_tolerance_pct (off_pct achieved target)
      then off_target c achieved target ∷ []
      else []

  -- The gap of a figure that both arms must have.
  unfoldable pub gap_of :
      Bytes
      → (Bytes → Finding)
      → (Bytes → py.Number → py.Number → py.Number → Finding)
      → Option py.Number
      → Option py.Number
      → List Finding
  unfolding relative_gap_pct
  gap_of regime absent differs none s = absent regime ∷ []
  gap_of regime absent differs (some p) none = absent regime ∷ []
  gap_of regime absent differs (some p) (some s) =
      on (relative_gap_pct py (some p) (some s))
        λ gap. if py.lt pair_tolerance_pct gap then differs regime gap p s ∷ [] else []

  unfoldable pub work_gap : Bytes → Value py → Value py → List Finding
  unfolding number gap_of
  work_gap regime p s =
      gap_of regime no_requests requests_differ (number py p (codes "plateau_requests"))
        (number py s (codes "plateau_requests"))
      ++ gap_of regime no_rates rates_differ (number py p (codes "achieved_rps"))
          (number py s (codes "achieved_rps"))

  -- A check of every cell, and one of the two arms of every regime.
  abbrev pub each_cell : Runs → (Cell → Value py → List Finding) → List Finding
  each_cell runs check = flat_map (λ c. on (find c runs) (check c)) cells

  abbrev pub each_regime : Runs → (Bytes → Value py → Value py → List Finding) → List Finding
  each_regime runs check =
      flat_map
        (λ regime.
          on (find (regime, poseidon) runs)
            λ p. on (find (regime, standard) runs) λ s. check regime p s)
        regimes

  unfoldable pub validity_findings : Loaded py → List Finding
  validity_findings l =
      map (λ e. could_not_read e.0 e.1) (sorted l.load_errors)
      ++ (map unrecognized l.extra_files
          ++ (flat_map (missing_check l.runs l.unreadable) cells
              ++ (each_cell l.runs errors_of
                  ++ (each_regime l.runs body_gap
                      ++ (each_cell l.runs drift_of
                          ++ (each_cell l.runs window_of
                              ++ (each_cell l.runs target_of ++ each_regime l.runs work_gap)))))))
