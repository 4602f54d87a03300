-- ===== src/Comparison/Tests.antt =====
-- The comparison's theorems at concrete inputs, over whole numbers.
use mathlib.Core.List.{Memᴰ}
use poseidon_tests.Prelude.{
  ℕ, ◌+◌, ◌-◌, ◌*◌, ◌/◌, ◌≡◌, ◌↔◌, ◌⊎◌, inl, inr, refl, arith, true, false, List, [], ◌∷◌, ◌++◌,
  some, none, Bytes, codes, ltb, leb, ◌==◌, Bool-cases, text_eq, ◌<◌, ◌≤◌,
}
use poseidon_tests.Samples.{whole, idle_snapshot, later_snapshot}
use poseidon_tests.SelfMetrics.{runtime_cpu_usable, sub, runtime_window}
use poseidon_tests.Scenario.{all, echo}
use poseidon_tests.Load.{Profile}
use poseidon_tests.Driver.Sampler.{new_sampler}
use poseidon_tests.Driver.Counters.{
  Reply, add_total, add_err, add_body, note_err, apply, zero_counters, tally_answer, latch_total,
  latch_errs, latch_non2xx, latch_body,
}
use poseidon_tests.Driver.Race.{
  System, Reach, begun, then, answered, operated, latched, start, count_op, latch_at,
}
use poseidon_tests.Driver.Race.Clean.{NoFailures}
use poseidon_tests.Comparison.Pipeline.Unflagged.{unflagged}
use poseidon_tests.Driver.Report.{
  Output, Report, emit, emit_encoded, done_line, warning_line, save, report_marker, build_report,
}
use poseidon_tests.Driver.Report.Emitted.{stdout_lines}
use poseidon_tests.Go.Strings.{has_prefix}
use poseidon_tests.Comparison.Numbers.{Numbers, mean, max_of, min_of}
use poseidon_tests.Comparison.Value.{
  Value, Members, float, dict, end, member, nothing, sample_of, on,
}
use poseidon_tests.Comparison.Dict.{cell_key, Cell, cell_eq, find, assign, set_default}
use poseidon_tests.Comparison.Cells.{regimes, arms, is_known, poseidon, standard, flat_map}
use poseidon_tests.Comparison.Loading.{
  File, rpartition, behind_dash, load_reports, load_file, nothing_loaded, accept_content, accept,
  append_to, refuse, earlier,
}
use poseidon_tests.Comparison.Loading.Replicates.{head?, share, load_reports-shares}
use poseidon_tests.Comparison.Tables.{
  cpu_millicores, below_floor, overlapping, poseidon_better, standard_better, verdict_of, floor_of,
  rescore, separated, row,
}
use poseidon_tests.Comparison.Tables.Separation.{IsOrder, AllBelow}
use poseidon_tests.Comparison.Tables.Credit.{IsMonotone, poseidon_wins}
use poseidon_tests.Comparison.Tables.Winners.{Apart, row-winner}
use poseidon_tests.Comparison.Validity.{validity_findings, errored, errors_of}
use poseidon_tests.Comparison.Validity.Later.{later_unchecked}
use poseidon_tests.Comparison.Pipeline.{
  Wire, report_value, collect, Merged, quiet, out_line, err_line,
}
use poseidon_tests.Comparison.Document.{FileSystem, main, directory_not_found}
use poseidon_tests.Comparison.Pipeline.Flagged.{flagged}

abbrev whole_py : Numbers
whole_py = record {
  Number = ℕ;
  of_nat = λ n. n;
  lit = λ a b. a / b;
  add = λ a b. a + b;
  sub = λ a b. a - b;
  mul = λ a b. a * b;
  div = λ a b. a / b;
  abs = λ a. a;
  sqrt = λ a. a;
  lt = ltb;
  le = leb;
  is_zero = λ a. a == 0;
  seconds_between = λ e s. some 0;
}

whole_between : (a b c : ℕ) → ltb a c ≡ true → (ltb a b ≡ true) ⊎ (ltb b c ≡ true)
whole_between a b c h = elim (Bool-cases (ltb a b)) [
  | inl less ↦ inl less
  | inr other ↦ inr (ground (arith, other))
]

whole_asymmetric : (a b : ℕ) → ltb a b ≡ true → ltb b a ≡ false
whole_asymmetric a b h = ground arith

abbrev whole_order : IsOrder whole_py
whole_order = record { asymmetric = whole_asymmetric; between = whole_between }

-- A difference of 7 percent is below the floor of noise, and no tie.
cpu_noise : verdict_of whole_py cpu_millicores 7 ≡ below_floor
unfolding verdict_of floor_of
cpu_noise = refl

row-winner_example :
    let verdict =
      (row whole_py true (codes "h1") (3 ∷ 4 ∷ []) (6 ∷ 5 ∷ 9 ∷ []) cpu_millicores).verdict in
    ((verdict ≡ overlapping) ↔ (¬ Apart whole_py 3 4 [] 6 5 (9 ∷ [])))
    × ((verdict ≡ poseidon_better) ↔ (Apart whole_py 3 4 [] 6 5 (9 ∷ []) × (ltb 3 6 ≡ true)))
    × ((verdict ≡ standard_better) ↔ (Apart whole_py 3 4 [] 6 5 (9 ∷ []) × (ltb 3 6 ≡ false)))
row-winner_example = row-winner whole_py 3 4 [] 6 5 (9 ∷ []) whole_order (codes "h1") cpu_millicores

whole_add_mono :
    (a a' b b' : ℕ) → ltb a' a ≡ false → ltb b' b ≡ false → ltb (a' + b') (a + b) ≡ false
whole_add_mono a a' b b' h k = ground arith

div_mono : (a a' k : ℕ) → 0 < k → a ≤ a' → a / k ≤ a' / k
div_mono a a' k h le = grind arith

whole_div_mono : (a a' k : ℕ) → 0 < k → ltb a' a ≡ false → ltb (a' / k) (a / k) ≡ false
whole_div_mono a a' k h le = ground (arith, div_mono a a' k)

abbrev whole_monotone : IsMonotone whole_py
whole_monotone = record { add_mono = whole_add_mono; div_mono = whole_div_mono }

poseidon_wins_example : AllBelow whole_py (3 ∷ 4 ∷ []) (6 ∷ 5 ∷ [])
unfolding row rescore mean separated max_of min_of
poseidon_wins_example =
    poseidon_wins whole_py whole_order whole_monotone 3 4 [] 6 5 [] (codes "h1") cpu_millicores refl
      refl

-- A report of one member, and files with it.
abbrev small : ℕ → Members whole_py
small n = member (codes "plateau_errors") (float n) end

abbrev listing : List (File whole_py)
listing =
    record { stem = codes "h1-poseidon"; content = inl (codes "bad") }
    ∷ record { stem = codes "h1-poseidon"; content = inr (dict (small 0)) }
    ∷ record { stem = codes "notes"; content = inr nothing }
    ∷ []

abbrev later : List (File whole_py)
later = record { stem = codes "h1-poseidon"; content = inr (dict (small 9)) } ∷ []

abbrev first_cell : Cell
first_cell = (codes "h1", poseidon)

load_reports-shares_example :
    (earlier whole_py (find first_cell (load_reports whole_py listing).reps)
      ≡ flat_map (share whole_py first_cell) listing)
    × (find first_cell (load_reports whole_py listing).runs
        ≡ head? (flat_map (share whole_py first_cell) listing))
unfolding is_known
load_reports-shares_example = load_reports-shares whole_py first_cell refl listing

listing_loads : load_reports whole_py listing ≡ record {
  runs = (first_cell, dict (small 0)) ∷ [];
  reps = (first_cell, dict (small 0) ∷ []) ∷ [];
  load_errors =
      (codes "h1-poseidon.json", codes "bad")
      ∷ (codes "notes.json", codes "top-level JSON value is not an object")
      ∷ [];
  extra_files = [];
  unreadable = first_cell ∷ [];
}
unfolding load_reports load_file nothing_loaded accept_content accept refuse rpartition behind_dash
    is_known append_to find assign set_default cell_eq
listing_loads = refl

later_unchecked_example :
    validity_findings whole_py (load_reports whole_py (listing ++ later))
    ≡ validity_findings whole_py (load_reports whole_py listing)
unfolding load_reports load_file nothing_loaded accept_content accept refuse rpartition behind_dash
    is_known append_to find assign set_default cell_eq
later_unchecked_example =
    later_unchecked whole_py listing later ((small 9, dict (small 0), refl, refl, refl), tt)

-- A call that fails behind the latch, of the only worker.
abbrev failed_run : System
failed_run = record {
  counters = record zero_counters {
    total = 1;
    errs = 1;
    first_err = some ((all echo).name ++ (codes ": " ++ codes "eof"));
  };
  workers = [] ∷ [];
  stage = 4;
  truth = record {
    sent = 1;
    failed = 1;
    refused = 0;
    received = 0;
    sent_before = 0;
    failed_before = 0;
    refused_before = 0;
    received_before = 0;
  };
}

failed_run-Reach : Reach 1 failed_run
unfolding start zero_counters tally_answer apply count_op latch_at latch_total latch_errs
    latch_non2xx latch_body
failed_run-Reach =
    let opened =
      then (then (then (then begun (latched refl)) (latched refl)) (latched refl)) (latched refl) in
    let reply : Reply = record { answer = inl (codes "eof"); cancelled = false } in
    let called = then opened (answered [] [] (all echo) reply refl refl) in
    let counted = then called (operated [] [] add_total _ refl refl) in
    let noted = then counted (operated [] [] add_err _ refl refl) in
    then noted (operated [] [] (note_err _) [] refl refl)

abbrev brief : Profile whole
brief = record { target_rps = 5; ramp = 0; plateau = 10000000000 }

abbrev constant_output : Output whole
constant_output = record {
  marshal_indent = λ r. inr (codes "{ }");
  marshal = λ r. inr (codes "{}");
  write_file = λ p. none;
}

abbrev plain_wire : Wire whole whole_py
plain_wire = record { real = λ x. x; int = λ n. n; instant = λ t. codes "2026" }

positive : (k : ℕ) → ltb 0 k ≡ ltb 0 k
positive k = refl

abbrev of_h1 : Memᴰ (codes "h1") regimes
unfolding regimes
of_h1 = Memᴰ.head refl

abbrev of_standard : Memᴰ standard arms
unfolding arms
of_standard = Memᴰ.tail (Memᴰ.head refl)

abbrev failed_report : Report whole
failed_report =
    build_report whole (codes "h1") standard brief failed_run.counters idle_snapshot later_snapshot
      new_sampler

abbrev parsed : Bytes → Bytes ⊎ Value whole_py
parsed s = inr (report_value whole_py plain_wire failed_report)

abbrev failed_log : List Bytes
failed_log = codes "driver: done" ∷ (report_marker ++ codes "{}") ∷ []

failed_log-Merged :
    Merged
      (stdout_lines (emit whole constant_output failed_report []))
      (codes "driver: done" ∷ [])
      failed_log
unfolding stdout_lines emit emit_encoded save done_line warning_line build_report runtime_cpu_usable
    sub runtime_window
failed_log-Merged = err_line _ (out_line _ quiet)

flagged_example :
    (collect failed_log ≡ some (codes "{}"))
    × Memᴰ
        (errored
          (codes "h1", standard)
          1
          (sample_of whole_py (report_value whole_py plain_wire failed_report)))
        (validity_findings whole_py (
          load_reports whole_py (
            listing
            ++ (record { stem = codes "h1-standard"; content = parsed (codes "{}") } ∷ later))))
unfolding share rpartition behind_dash cell_eq has_prefix report_marker
flagged_example =
    flagged whole_py plain_wire (codes "h1") standard of_h1 of_standard failed_run-Reach refl
      (refl, tt) (omega arith) brief idle_snapshot later_snapshot new_sampler constant_output []
      (codes "{ }") (codes "{}") refl refl failed_log-Merged (refl, tt) parsed refl positive listing
      later refl (omega arith)

-- A call that is answered in the plateau, and is not counted to its end yet.
abbrev opened : System
opened = record (start 1) { stage = 4 }

abbrev answered_run : System
answered_run = record opened {
  counters = record zero_counters { total = 1 };
  workers = (add_body 2 ∷ []) ∷ [];
  truth = record (opened.truth) { sent = 1 };
}

answered_run-Reach : Reach 1 answered_run
unfolding start zero_counters tally_answer apply count_op latch_at latch_total latch_errs
    latch_non2xx latch_body
answered_run-Reach =
    let latched_all =
      then (then (then (then begun (latched refl)) (latched refl)) (latched refl)) (latched refl) in
    let reply : Reply = record {
      answer = inr (record { status = 200; body_len = 2 });
      cancelled = false;
    } in
    let called = then latched_all (answered [] [] (all echo) reply refl refl) in
    then called (operated [] [] add_total _ refl refl)

abbrev answered_report : Report whole
answered_report =
    build_report whole (codes "h1") standard brief answered_run.counters idle_snapshot
      later_snapshot new_sampler

unflagged_example :
    (on
        (find
          (codes "h1", standard)
          (load_reports whole_py (
            listing
            ++ (record {
              stem = codes "h1-standard";
              content = inr (report_value whole_py plain_wire answered_report);
            }
                ∷ later))).runs)
        (errors_of whole_py (codes "h1", standard))
      ≡ [])
    × (answered_report.sample_error ≡ [])
unfolding share rpartition behind_dash cell_eq NoFailures answered_run-Reach
unflagged_example =
    unflagged whole_py plain_wire (codes "h1") standard of_h1 of_standard answered_run-Reach
      (inl (_, refl), tt) brief idle_snapshot later_snapshot new_sampler _ refl positive listing
      later refl

-- The exit codes.
abbrev disk : FileSystem whole_py
disk = record {
  is_dir = λ d. text_eq d (codes "results");
  listing = λ d. listing;
  write_fails = λ d. true;
}

no_directory : main whole_py disk (codes "r" ∷ []) ≡ (directory_not_found (codes "r") ∷ [], 2)
unfolding main
no_directory = refl

read_only : (main whole_py disk []).1 ≡ 1
unfolding main
read_only = refl
