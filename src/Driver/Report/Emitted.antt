-- ===== src/Driver/Report/Emitted.antt =====
-- What `emit` leaves for the reader of the log.
use poseidon_tests.Prelude.{
  sym, ap, append_assoc, ◌≡◌, refl, ◌∙◌, false, List, [], ◌∷◌, ◌++◌, Bytes, inl, inr, if◌then◌else◌,
  Bool-cases, Option-cases,
}
use poseidon_tests.Go.Floats.{Floats}
use poseidon_tests.SelfMetrics.{Snapshot}
use poseidon_tests.SelfMetrics.Window.{HasNoWidth, frozen_window}
use poseidon_tests.Load.{Profile}
use poseidon_tests.Driver.Counters.{Counters}
use poseidon_tests.Driver.Sampler.{Sampler}
use poseidon_tests.Driver.Report.{
  Report, build_report, Effect, done_line, warning_line, printed, Output, report_marker, save, emit,
  emit_encoded,
}

module _ {fl : Floats} where
  -- The lines on stdout.
  unfoldable pub stdout_lines : List (Effect fl) → List Bytes
  stdout_lines [] = []
  stdout_lines (printed s ∷ es) = s ∷ stdout_lines es
  stdout_lines (e ∷ es) = stdout_lines es

module _ (fl : Floats) where
  -- The effects in front of the report's line.
  abbrev pub before_line : Output fl → Report fl → Bytes → Bytes → List (Effect fl)
  before_line o rep out_path pretty =
      save fl o out_path pretty
      ++ (done_line fl rep ∷ (if rep.cpu_runtime_valid then [] else warning_line fl rep ∷ []))

  save-silent :
      (o : Output fl) (out_path pretty : Bytes) (es : List (Effect fl))
      → stdout_lines (save fl o out_path pretty ++ es) ≡ stdout_lines es
  unfolding save stdout_lines
  save-silent o [] pretty es = refl
  save-silent o (c ∷ path) pretty es = elim (Option-cases (o.write_file (c ∷ path))) [
    | inl written ↦ rw written refl
    | inr (reason, failed) ↦ rw failed refl
  ]

  -- If both encoders succeed, the marked report is the last effect and the only line on stdout, also
  -- where the file cannot be written; a warning stands in front of it exactly where the runtime's
  -- figures are unusable.
  pub emit_lem :
      (o : Output fl) (rep : Report fl) (out_path pretty compact : Bytes)
      → o.marshal_indent rep ≡ inr pretty
      → o.marshal rep ≡ inr compact
      → (emit fl o rep out_path
          ≡ before_line o rep out_path pretty ++ (printed (report_marker ++ compact) ∷ []))
        × (stdout_lines (emit fl o rep out_path) ≡ (report_marker ++ compact) ∷ [])
  unfolding emit emit_encoded stdout_lines done_line warning_line
  emit_lem o rep out_path pretty compact indented encoded =
      rw (indented, encoded)
        (elim (Bool-cases rep.cpu_runtime_valid) [
          | inl valid ↦ rw valid (
            sym (
                append_assoc (save fl o out_path pretty) (done_line fl rep ∷ [])
                  (printed (report_marker ++ compact) ∷ [])),
            save-silent o out_path pretty _,
          )
          | inr stale ↦ rw stale (
            sym (
                append_assoc (save fl o out_path pretty)
                  (done_line fl rep ∷ warning_line fl rep ∷ [])
                  (printed (report_marker ++ compact) ∷ [])),
            save-silent o out_path pretty _,
          )
        ])

  -- If both encoders succeed, a report whose two snapshots saw no refresh of the runtime's total is
  -- printed behind the warning: the hypothesis on floating point is that the total less itself, over
  -- a positive number of processors, is a zero duration.
  pub emit_frozen :
      (regime arm : Bytes) (profile : Profile fl) (cs : Counters) (start end : Snapshot fl)
      (sampler : Sampler) (o : Output fl) (out_path pretty compact : Bytes)
      → HasNoWidth fl start.cpu_stats_total_seconds
      → end.cpu_stats_total_seconds ≡ start.cpu_stats_total_seconds
      → o.marshal_indent (build_report fl regime arm profile cs start end sampler) ≡ inr pretty
      → o.marshal (build_report fl regime arm profile cs start end sampler) ≡ inr compact
      → emit fl o (build_report fl regime arm profile cs start end sampler) out_path
        ≡ save fl o out_path pretty
          ++ (done_line fl (build_report fl regime arm profile cs start end sampler)
              ∷ warning_line fl (build_report fl regime arm profile cs start end sampler)
              ∷ printed (report_marker ++ compact)
              ∷ [])
  emit_frozen regime arm profile cs start end sampler o out_path pretty compact no_interval frozen
        indented encoded =
      let rep = build_report fl regime arm profile cs start end sampler in
      let stale : rep.cpu_runtime_valid ≡ false =
        unfold build_report in frozen_window fl start end no_interval frozen in
      (emit_lem o rep out_path pretty compact indented encoded).0
      ∙ ap
          (λ valid.
            (save fl o out_path pretty
              ++ (done_line fl rep ∷ (if valid then [] else warning_line fl rep ∷ [])))
            ++ (printed (report_marker ++ compact) ∷ []))
          stale
      ∙ append_assoc (save fl o out_path pretty) (done_line fl rep ∷ warning_line fl rep ∷ [])
          (printed (report_marker ++ compact) ∷ [])
