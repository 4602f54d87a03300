-- ===== src/Comparison/Pipeline/Collected.antt =====
-- What scripts/run.sh stores of a driver's log.
use poseidon_tests.Prelude.{
  ◌≡◌, refl, ap, ◌∙◌, true, false, List, [], ◌∷◌, ◌++◌, map, some, inr, Bytes, All, length, drop,
  get_last?, ==_iff,
}
use poseidon_tests.Go.Floats.{Floats}
use poseidon_tests.Go.Strings.{has_prefix}
use poseidon_tests.Driver.Report.{Report, Output, report_marker, emit}
use poseidon_tests.Driver.Report.Emitted.{stdout_lines, emit_lem}
use poseidon_tests.Comparison.Pipeline.{grep, unmark, collect, Merged, quiet, out_line, err_line}

has_prefix-append : (p s : Bytes) → has_prefix (p ++ s) p ≡ true
unfolding has_prefix
has_prefix-append [] [] = refl
has_prefix-append [] (c ∷ s) = refl
has_prefix-append (c ∷ p) s = rw ((==_iff c c).1 refl) (has_prefix-append p s)

drop-length_append : (p s : Bytes) → drop (length p) (p ++ s) ≡ s
drop-length_append [] s = refl
drop-length_append (c ∷ p) s = drop-length_append p s

-- Lines of the error stream that are not marked are not seen.
grep-Merged :
    {out err log : List Bytes}
    → Merged out err log
    → All (λ l. has_prefix l report_marker ≡ false) err
    → grep log ≡ grep out
unfolding grep
grep-Merged quiet h = refl
grep-Merged (out_line l m) h = rw (grep-Merged m h) refl
grep-Merged (err_line l m) h = rw h.0 (grep-Merged m h.1)

grep_marked : (l : Bytes) → has_prefix l report_marker ≡ true → grep (l ∷ []) ≡ l ∷ []
unfolding grep
grep_marked l h = rw h refl

collect-printed :
    (compact : Bytes) (log : List Bytes)
    → grep log ≡ (report_marker ++ compact) ∷ []
    → collect log ≡ some compact
unfolding collect unmark
collect-printed compact log e =
    ap (λ ls. get_last? (map unmark ls)) e ∙ ap some (drop-length_append report_marker compact)

module _ (fl : Floats) where
  -- If both encoders succeed, then from the log of the job, in which the lines of stderr stand between
  -- those of stdout in any way and none of them has the marker, the compact report is stored, whole.
  pub collect-emit :
      (o : Output fl) (rep : Report fl) (out_path pretty compact : Bytes)
      → o.marshal_indent rep ≡ inr pretty
      → o.marshal rep ≡ inr compact
      → {err log : List Bytes} → Merged (stdout_lines (emit fl o rep out_path)) err log
      → All (λ l. has_prefix l report_marker ≡ false) err
      → collect log ≡ some compact
  collect-emit o rep out_path pretty compact indented encoded {log = log} merged unmarked =
      collect-printed compact log (
        grep-Merged merged unmarked
        ∙ ap grep (emit_lem fl o rep out_path pretty compact indented encoded).1
        ∙ grep_marked (report_marker ++ compact) (has_prefix-append report_marker compact))
