-- ===== src/Comparison/Pipeline/Flagged.antt =====
-- From the race of the workers to the comparison: an error of the plateau is flagged.
use mathlib.Core.List.{Memᴰ}
use mathlib.Core.List.Memᴰ
use poseidon_tests.Prelude.{
  ℕ, ◌+◌, ◌-◌, ◌<◌, ◌≡◌, refl, sym, ap, ◌∙◌, arith, true, false, List, [], ◌∷◌, ◌++◌, some, inr,
  ◌⊎◌, Bytes, if◌then◌else◌, append_assoc, map, All, ltb, lt→ltb, word, subst,
}
use poseidon_tests.Go.Floats.{Floats}
use poseidon_tests.Go.Strings.{has_prefix}
use poseidon_tests.SelfMetrics.{Snapshot}
use poseidon_tests.Load.{Profile}
use poseidon_tests.Driver.Sampler.{Sampler}
use poseidon_tests.Driver.Race.{System, Reach}
use poseidon_tests.Driver.Race.Plateau.{IsQuiet, plateau_exact}
use poseidon_tests.Driver.Report.{Report, build_report, Output, report_marker, emit}
use poseidon_tests.Driver.Report.Emitted.{stdout_lines}
use poseidon_tests.Comparison.Numbers.{Numbers, zero_number}
use poseidon_tests.Comparison.Value.{Value, on, sample_of}
use poseidon_tests.Comparison.Dict.{cell_key, Cell, find, cell_eq, cell_eq_iff}
use poseidon_tests.Comparison.Cells.{cells, regimes, arms, flat_map}
use poseidon_tests.Comparison.Loading.{File, Loaded, rpartition, load_reports}
use poseidon_tests.Comparison.Loading.Replicates.{share, head?, load_reports-shares, report_of}
use poseidon_tests.Comparison.Loading.Names.{rpartition_name, known, cells-Mem, flat_map-Mem}
use poseidon_tests.Comparison.Validity.{
  Finding, errored, errors_of, validity_findings, each_cell, each_regime, could_not_read,
  unrecognized, sorted, missing_check, body_gap, drift_of, window_of, target_of, work_gap,
}
use poseidon_tests.Comparison.Pipeline.{Wire, report_value, collect, Merged}
use poseidon_tests.Comparison.Pipeline.Collected.{collect-emit}
use poseidon_tests.Comparison.Pipeline.Fields.{report_value-ReadsAs}

flat_map-append {ℓ κ} :
    {A : Type ℓ} {B : Type κ} (f : A → List B) (xs ys : List A)
    → flat_map f (xs ++ ys) ≡ flat_map f xs ++ flat_map f ys
flat_map-append f [] ys = refl
flat_map-append f (x ∷ xs) ys =
    ap (λ bs. f x ++ bs) (flat_map-append f xs ys)
    ∙ sym (append_assoc (f x) (flat_map f xs) (flat_map f ys))

flag_some {ℓ} :
    {A : Type ℓ} (f : ℕ → A) {k k' : ℕ}
    → k ≡ k'
    → 0 < k
    → (if ltb 0 k then f k ∷ [] else []) ≡ f k' ∷ []
flag_some f {k} e h = rw (lt→ltb 0 k h) (ap (λ j. f j ∷ []) e)

only-Mem {ℓ} : {A : Type ℓ} {x : A} {xs : List A} → xs ≡ x ∷ [] → Memᴰ x xs
only-Mem {x = x} e = subst (λ ys. Memᴰ x ys) (sym e) (Memᴰ.head refl)

fourth {ℓ} :
    {A : Type ℓ} {x : A} (xs ys zs : List A) {ds : List A} (es : List A)
    → Memᴰ x ds
    → Memᴰ x (xs ++ (ys ++ (zs ++ (ds ++ es))))
fourth xs ys zs es h =
    Memᴰ.append_right xs (Memᴰ.append_right ys (Memᴰ.append_right zs (Memᴰ.append_left es h)))

module _ (py : Numbers) where
  -- The error findings are among all of them.
  errored-Mem :
      (l : Loaded py) (f : Finding py)
      → Memᴰ f (each_cell py l.runs (errors_of py))
      → Memᴰ f (validity_findings py l)
  unfolding validity_findings
  errored-Mem l f h =
      fourth (map (λ (e : Bytes × Bytes). could_not_read e.0 e.1) (sorted l.load_errors))
        (map unrecognized l.extra_files) (flat_map (missing_check py l.runs l.unreadable) cells)
        (each_regime py l.runs (body_gap py)
          ++ (each_cell py l.runs (drift_of py)
              ++ (each_cell py l.runs (window_of py)
                  ++ (each_cell py l.runs (target_of py) ++ each_regime py l.runs (work_gap py)))))
        h

  module _ (regime arm : Bytes) (r : Memᴰ regime regimes) (a : Memᴰ arm arms) where
    -- The run of a cell is the first report with its name.
    run_of :
        (pre post : List (File py)) (f : File py) {v : Value py}
        → flat_map (share py (regime, arm)) pre ≡ []
        → f.stem ≡ regime ++ (b'-' ∷ arm)
        → report_of py f.content ≡ v ∷ []
        → find (regime, arm) (load_reports py (pre ++ (f ∷ post))).runs ≡ some v
    unfolding share
    run_of pre post f {v} first named given =
        let same : cell_eq (rpartition f.stem) (regime, arm) ≡ true =
          (cell_eq_iff _ _).1 (ap rpartition named ∙ rpartition_name regime arm r a) in
        let mine : share py (regime, arm) f ≡ v ∷ [] = rw same given in
        let rest = flat_map (share py (regime, arm)) post in
        (load_reports-shares py (regime, arm) (known regime arm r a) (pre ++ (f ∷ post))).1
        ∙ ap head? (flat_map-append (share py (regime, arm)) pre (f ∷ post))
        ∙ ap (λ vs. head? (vs ++ (share py (regime, arm) f ++ rest))) first
        ∙ ap (λ vs. head? (vs ++ rest)) mine

  module _ {fl : Floats} (wire : Wire fl py) where
    -- What the check of errors says of a driver's report.
    errors_of-report :
        (c : Cell) (rep : Report fl)
        → ((k : ℕ) → py.lt (zero_number py) (py.of_nat k) ≡ ltb 0 k)
        → errors_of py c (report_value py wire rep) ≡ (
            if ltb 0 rep.plateau_errors
            then errored c (py.of_nat rep.plateau_errors) (sample_of py (report_value py wire rep))
              ∷ []
            else [])
    unfolding errors_of
    errors_of-report c rep positive =
        rw ((report_value-ReadsAs py wire rep).errors) (rw (positive rep.plateau_errors) refl)

    module _ (regime arm : Bytes) (r : Memᴰ regime regimes) (a : Memᴰ arm arms) where
      abbrev pub cell_file : Bytes ⊎ Value py → File py
      cell_file content = record { stem = regime ++ (b'-' ∷ arm); content = content }

      -- The error findings of a cell whose first report is a driver's.
      pub error_findings :
          (rep : Report fl) (content : Bytes ⊎ Value py)
          → content ≡ inr (report_value py wire rep)
          → ((k : ℕ) → py.lt (zero_number py) (py.of_nat k) ≡ ltb 0 k)
          → (pre post : List (File py)) → flat_map (share py (regime, arm)) pre ≡ []
          → on
              (find (regime, arm) (load_reports py (pre ++ (cell_file content ∷ post))).runs)
              (errors_of py (regime, arm))
            ≡ (if ltb 0 rep.plateau_errors
                then errored
                    (regime, arm)
                    (py.of_nat rep.plateau_errors)
                    (sample_of py (report_value py wire rep))
                  ∷ []
                else [])
      unfolding report_value
      error_findings rep content loaded positive pre post first =
          ap (λ o. on o (errors_of py (regime, arm)))
            (run_of regime arm r a pre post (cell_file content) first refl
              (ap (report_of py) loaded))
          ∙ errors_of-report (regime, arm) rep positive

      module _ {n : ℕ} {s : System} (reach : Reach n s) (done : s.stage ≡ 4) (quiet : IsQuiet s)
          (few : s.truth.sent < word) (profile : Profile fl) (start end : Snapshot fl)
          (sampler : Sampler) (o : Output fl) (out_path pretty compact : Bytes) where
        -- The report of the run, which the driver makes of its counters.
        abbrev pub run_report : Report fl
        run_report = build_report fl regime arm profile s.counters start end sampler

        -- The finding of a number of errors in it.
        abbrev pub run_error : ℕ → Finding py
        run_error k =
            errored (regime, arm) (py.of_nat k) (sample_of py (report_value py wire run_report))

        reported : run_report.plateau_errors + s.truth.failed_before ≡ s.truth.failed
        unfolding build_report
        reported = (plateau_exact reach done quiet few).1

        -- Let a run of the driver end as in `main`, with fewer than 2 ^ 64 calls and both encoders
        -- successful, and let its log be merged with unmarked lines of stderr in any way. If a call
        -- failed behind the latch, in any interleaving of the workers, then the stored text is the
        -- compact report, and the comparison of any directory in which it is the first readable report
        -- of its cell has the finding with exactly that number of errors. The hypotheses on Python are
        -- that the text is read back as the struct's members, and that a count is above 0 as a float
        -- exactly when it is.
        pub flagged :
            o.marshal_indent run_report ≡ inr pretty
            → o.marshal run_report ≡ inr compact
            → {err log : List Bytes} → Merged (stdout_lines (emit fl o run_report out_path)) err log
            → All (λ l. has_prefix l report_marker ≡ false) err
            → (parse : Bytes → Bytes ⊎ Value py)
            → parse compact ≡ inr (report_value py wire run_report)
            → ((k : ℕ) → py.lt (zero_number py) (py.of_nat k) ≡ ltb 0 k)
            → (pre post : List (File py)) → flat_map (share py (regime, arm)) pre ≡ []
            → s.truth.failed_before < s.truth.failed
            → (collect log ≡ some compact)
              × Memᴰ (run_error (s.truth.failed - s.truth.failed_before)) (
                  validity_findings py
                    (load_reports py (pre ++ (cell_file (parse compact) ∷ post))))
        flagged indented encoded merged unmarked parse parsed positive pre post first failed =
            let errors : run_report.plateau_errors ≡ s.truth.failed - s.truth.failed_before =
              omega (arith, reported) in
            let found = error_findings run_report (parse compact) parsed positive pre post first in
            let exact = found ∙ flag_some run_error errors (ground (arith, errors)) in
            let l = load_reports py (pre ++ (cell_file (parse compact) ∷ post)) in
            let here =
              flat_map-Mem (λ c. on (find c l.runs) (errors_of py c)) (cells-Mem regime arm r a)
                (only-Mem exact) in
            (
              collect-emit fl o run_report out_path pretty compact indented encoded merged unmarked,
              errored-Mem l (run_error (s.truth.failed - s.truth.failed_before)) here,
            )
