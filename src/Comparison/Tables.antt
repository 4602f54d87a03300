-- ===== src/Comparison/Tables.antt =====
-- The metric tables: `delta_and_verdict`, `separated` and `render_metric_table`. A row is kept as its
-- cells' values, which the code prints with `format`.
pub mod Separation
pub mod Winners
pub mod Credit
use poseidon_tests.Prelude.{
  ℕ, Bool, true, false, ◌&&◌, ◌||◌, List, [], ◌∷◌, map, Option, none, some, ◌>>=◌, Bytes, codes,
  if◌then◌else◌, length, ltb,
}
use poseidon_tests.Comparison.Numbers.{Numbers, zero_number, max_of, min_of, mean, cv_pct}
use poseidon_tests.Comparison.Value.{Value, number}
use poseidon_tests.Comparison.Dict.{cell_key, Cell, find}
use poseidon_tests.Comparison.Cells.{regimes, poseidon, standard}

-- The entries of `METRICS`, named by their headings.
pub data Metric : Type 0 where
  cpu_millicores rss_avg rss_peak allocs_per_request bytes_per_request : Metric

unfoldable pub metrics : List Metric
metrics = cpu_millicores ∷ rss_avg ∷ rss_peak ∷ allocs_per_request ∷ bytes_per_request ∷ []

-- The texts of a verdict. `unknown` is `MISSING`.
pub data Verdict : Type 0 where
  unknown below_floor about_equal overlapping poseidon_better standard_better : Verdict

-- `min(len(a), len(b))`
abbrev shorter : ℕ → ℕ → ℕ
shorter m n = if ltb n m then n else m

module _ (py : Numbers) where
  abbrev to_mib : Option py.Number → Option py.Number
  to_mib v = v >>= λ (x : py.Number). some (py.div x (py.lit 1048576 1))

  -- The extractor of a metric.
  unfoldable pub extract : Metric → Value py → Option py.Number
  extract cpu_millicores r = number py r (codes "cpu_millicores")
  extract rss_avg r = to_mib (number py r (codes "rss_avg_bytes"))
  extract rss_peak r = to_mib (number py r (codes "rss_peak_bytes"))
  extract allocs_per_request r = number py r (codes "allocs_per_req")
  extract bytes_per_request r = number py r (codes "alloc_bytes_per_req")

  abbrev pub equal_band_pct : py.Number
  equal_band_pct = py.lit 5 1

  -- `NOISE_FLOOR_PCT.get(heading, EQUAL_BAND_PCT)`
  unfoldable pub floor_of : Metric → py.Number
  floor_of cpu_millicores = py.lit 10 1
  floor_of rss_avg = py.lit 10 1
  floor_of rss_peak = py.lit 10 1
  floor_of allocs_per_request = equal_band_pct
  floor_of bytes_per_request = equal_band_pct

  abbrev pub delta_pct : py.Number → py.Number → py.Number
  delta_pct p s = py.mul (py.div (py.sub p s) s) (py.lit 100 1)

  unfoldable pub verdict_of : Metric → py.Number → Verdict
  unfolding floor_of
  verdict_of m delta =
      if py.lt (py.abs delta) (floor_of m) && py.lt equal_band_pct (floor_of m)
      then below_floor
      else (if py.lt (py.abs delta) equal_band_pct
          then about_equal
          else (if py.lt (py.abs delta) (floor_of m)
              then below_floor
              else (if py.lt delta (zero_number py) then poseidon_better else standard_better)))

  unfoldable pub delta_and_verdict :
      Option py.Number → Option py.Number → Metric → Option py.Number × Verdict
  unfolding verdict_of
  delta_and_verdict none s m = (none, unknown)
  delta_and_verdict (some p) none m = (none, unknown)
  delta_and_verdict (some p) (some s) m =
      if py.is_zero s then (none, unknown) else (some (delta_pct p s), verdict_of m (delta_pct p s))

  -- Whether the ranges lie apart, of two samples or more on each side.
  unfoldable pub separated : List py.Number → List py.Number → Option Bool
  unfolding max_of min_of
  separated (x ∷ x' ∷ xs) (y ∷ y' ∷ ys) = some (
      py.lt (max_of py x (x' ∷ xs)) (min_of py y (y' ∷ ys))
      || py.lt (max_of py y (y' ∷ ys)) (min_of py x (x' ∷ xs)))
  separated _ _ = none

  abbrev present : Option py.Number → List py.Number → List py.Number
  present none vs = vs
  present (some v) vs = v ∷ vs

  abbrev series_of : (Value py → Option py.Number) → List (Value py) → List py.Number
  series_of f [] = []
  series_of f (r ∷ rs) = present (f r) (series_of f rs)

  abbrev replicates : Option (List (Value py)) → List (Value py)
  replicates none = []
  replicates (some rs) = rs

  unfoldable pub cell_series :
      List (Cell × List (Value py)) → Cell → (Value py → Option py.Number) → List py.Number
  unfolding find
  cell_series reps c f = series_of f (replicates (find c reps))

  -- `any(len(v) > 1 for v in reps.values())`
  unfoldable pub replicated : List (Cell × List (Value py)) → Bool
  replicated [] = false
  replicated ((c, rs) ∷ reps) = ltb 1 (length rs) || replicated reps

  pub record Row : Type 0 where
    pub regime : Bytes
    pub poseidon_mean : Option py.Number
    pub standard_mean : Option py.Number
    pub delta : Option py.Number
    -- the columns of a replicated table: the number of samples, and the larger spread
    pub samples : Option (ℕ × Option py.Number)
    pub verdict : Verdict

  -- The winner of two separated series is the lower mean; the verdict is kept where a series has too
  -- few samples.
  unfoldable pub rescore : Option Bool → Option py.Number → Option py.Number → Verdict → Verdict
  rescore (some false) (some p) (some s) v = overlapping
  rescore (some true) (some p) (some s) v = if py.lt p s then poseidon_better else standard_better
  rescore _ _ _ v = v

  abbrev larger_cv : Option py.Number → Option py.Number → Option py.Number
  larger_cv none none = none
  larger_cv none (some d) = some d
  larger_cv (some c) none = some c
  larger_cv (some c) (some d) = some (max_of py c (d ∷ []))

  unfoldable pub row : Bool → Bytes → List py.Number → List py.Number → Metric → Row
  unfolding mean cv_pct delta_and_verdict separated rescore max_of
  row several regime ps ss m =
      let (delta, verdict) = delta_and_verdict (mean py ps) (mean py ss) m in
      record {
        regime = regime;
        poseidon_mean = mean py ps;
        standard_mean = mean py ss;
        delta = delta;
        samples =
            if several
            then some (shorter (length ps) (length ss), larger_cv (cv_pct py ps) (cv_pct py ss))
            else none;
        verdict =
            if several
            then rescore (separated ps ss) (mean py ps) (mean py ss) verdict
            else verdict;
      }

  unfoldable pub table : List (Cell × List (Value py)) → Metric → List Row
  unfolding row cell_series extract replicated regimes
  table reps m =
      map
        (λ r.
          row (replicated reps) r (cell_series reps (r, poseidon) (extract m))
            (cell_series reps (r, standard) (extract m)) m)
        regimes
