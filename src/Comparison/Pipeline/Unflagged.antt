-- ===== src/Comparison/Pipeline/Unflagged.antt =====
-- From the race of the workers to the comparison: a run without failures is not flagged for errors.
use mathlib.Core.List.{Memᴰ}
use poseidon_tests.Prelude.{
  ℕ, ◌≡◌, refl, ◌∙◌, arith, false, List, [], ◌∷◌, ◌++◌, inr, ◌⊎◌, Bytes, ltb,
}
use poseidon_tests.Go.Floats.{Floats}
use poseidon_tests.SelfMetrics.{Snapshot}
use poseidon_tests.Load.{Profile}
use poseidon_tests.Driver.Counters.{plateau_errors}
use poseidon_tests.Driver.Sampler.{Sampler}
use poseidon_tests.Driver.Race.{System, Reach}
use poseidon_tests.Driver.Race.Clean.{NoFailures, clean_run}
use poseidon_tests.Driver.Report.{build_report}
use poseidon_tests.Comparison.Numbers.{Numbers, zero_number}
use poseidon_tests.Comparison.Value.{Value, on}
use poseidon_tests.Comparison.Dict.{find, cell_key}
use poseidon_tests.Comparison.Cells.{regimes, arms, flat_map}
use poseidon_tests.Comparison.Loading.{File, load_reports}
use poseidon_tests.Comparison.Loading.Replicates.{share}
use poseidon_tests.Comparison.Validity.{errors_of}
use poseidon_tests.Comparison.Pipeline.{Wire, report_value}
use poseidon_tests.Comparison.Pipeline.Flagged.{cell_file, error_findings}

module _ {fl : Floats} (py : Numbers) (wire : Wire fl py) (regime arm : Bytes)
    (r : Memᴰ regime regimes) (a : Memᴰ arm arms) where
  -- Where every call of a run is answered, or fails only behind its end, then in every interleaving the
  -- report has no sample of an error, and its cell has no error finding in the comparison of a
  -- directory in which it is the first readable report of the cell. The hypotheses on Python are that
  -- the text is read back as the struct's members, and that a count is above 0 as a float exactly when
  -- it is.
  pub unflagged :
      {n : ℕ} {s : System} (reach : Reach n s)
      → NoFailures reach
      → (profile : Profile fl) (start end : Snapshot fl) (sampler : Sampler)
        (content : Bytes ⊎ Value py)
      → content
        ≡ inr
            (report_value py wire (build_report fl regime arm profile s.counters start end sampler))
      → ((k : ℕ) → py.lt (zero_number py) (py.of_nat k) ≡ ltb 0 k)
      → (pre post : List (File py)) → flat_map (share py (regime, arm)) pre ≡ []
      → (on
            (find
              (regime, arm)
              (load_reports py (pre ++ (cell_file py wire regime arm r a content ∷ post))).runs)
            (errors_of py (regime, arm))
          ≡ [])
        × ((build_report fl regime arm profile s.counters start end sampler).sample_error ≡ [])
  unfolding build_report
  unflagged {s = s} reach none_failed profile start end sampler content loaded positive pre post
        first =
      let (no_errors, no_sample) = clean_run reach none_failed in
      let clear : ltb 0 (plateau_errors s.counters) ≡ false = ground (arith, no_errors) in
      (
        error_findings py wire regime arm r a _ content loaded positive pre post first
            ∙ rw clear refl,
        rw no_sample refl,
      )
