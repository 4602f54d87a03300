-- ===== src/Driver/Tests.antt =====
-- The driver's theorems at concrete inputs.
use poseidon_tests.Prelude.{
  ap, ◌+◌, ◌%◌, ◌≤◌, ◌≡◌, refl, List, [], ◌∷◌, ◌++◌, some, inl, inr, false, codes, arith, All, word,
  length,
}
use poseidon_tests.Samples.{
  counting, plain_json, pair, pair-IsFilled, single, whole, idle_snapshot, later_snapshot,
}
use poseidon_tests.ClientSet.{Call}
use poseidon_tests.Scenario.{all, fetch, echo, mix_for}
use poseidon_tests.Scenario.PathPool.{PathPool, new_path_pool}
use poseidon_tests.Scenario.PathPool.Variants.{fitting_paths}
use poseidon_tests.Scenario.Mix.{new_mix}
use poseidon_tests.Driver.Counters.{
  Op, add_total, add_non2xx, add_body, apply, Reply, tally_answer, zero_counters, latch_total,
  latch_errs, latch_non2xx, latch_body, plateau_requests, plateau_errors, plateau_non2xx,
  plateau_body_bytes,
}
use poseidon_tests.Driver.Worker.{run_worker}
use poseidon_tests.Driver.Worker.Script.{rounds, issued, script, issued-run_worker}
use poseidon_tests.Driver.Worker.Arms.{issued-append}
use poseidon_tests.Driver.Worker.Total.{CallIsValid, run_worker_total}
use poseidon_tests.Driver.Race.{
  System, count_op, latch_at, start, Reach, begun, then, answered, operated, latched,
}
use poseidon_tests.Driver.Race.Plateau.{IsQuiet, plateau_exact, plateau_bounded, late_error}
use poseidon_tests.Driver.Sampler.{new_sampler, Tick, mem_of, run, result}
use poseidon_tests.Driver.Sampler.Bounds.{readings, highest, mean, heap_of, result-run}
use poseidon_tests.Weighted.Choice.{sum}

abbrev refusal : Reply
refusal = record { answer = inr (record { status = 404; body_len = 9 }); cancelled = false }

abbrev broken : Reply
broken = record { answer = inl (codes "eof"); cancelled = false }

one_built : (p : PathPool) × (new_path_pool 1 ≡ some p)
one_built = let (p, built, served) = fitting_paths 1 (omega arith) (omega arith) in (p, built)

issued-run_worker_example :
    issued (run_worker counting pair one_built.0 1 5 (codes "h2") (broken ∷ refusal ∷ []))
    ≡ script counting pair one_built.0 1
        (new_mix counting 5 1 (mix_for (codes "h2")))
        0
        (rounds (broken ∷ refusal ∷ []))
issued-run_worker_example =
    issued-run_worker counting pair one_built.0 1 5 (codes "h2") (broken ∷ refusal ∷ [])

run_worker_total_example :
    (calls : List Call) × (ops : List Op) × (run_worker counting pair one_built.0 1 5
        (codes "h2")
        (broken ∷ refusal ∷ [])
      ≡ some (calls, ops))
    × (length calls ≡ rounds (broken ∷ refusal ∷ []))
    × All (CallIsValid counting plain_json single) calls
run_worker_total_example =
    run_worker_total counting plain_json single pair one_built.0 pair-IsFilled (omega arith)
      one_built.1 1 5 (codes "h2") (broken ∷ refusal ∷ [])

-- A run of the sample worker, with the calls that it issues.
sample_run :
    (reps : List Reply)
    → (calls : List Call) × (issued (run_worker counting pair one_built.0 1 5 (codes "h2") reps)
        ≡ some calls)
sample_run reps =
    let (calls, ops, ran, long, valid) =
      run_worker_total counting plain_json single pair one_built.0 pair-IsFilled (omega arith)
        one_built.1 1 5 (codes "h2") reps in
    (calls, ap issued ran)

-- The first client fails once and is then closed; the second fails, and answers.
issued-append_example :
    (more : List Call) × ((sample_run (broken ∷ refusal ∷ [])).0
      ≡ (sample_run (broken ∷ [])).0 ++ more)
unfolding rounds
issued-append_example =
    issued-append counting pair one_built.0 1 5 (codes "h2") (broken ∷ []) (broken ∷ refusal ∷ [])
      (omega arith) (sample_run (broken ∷ [])).1 (sample_run (broken ∷ refusal ∷ [])).1

-- One worker, whose only call is refused in the plateau.
abbrev final : System
final = record {
  counters = record zero_counters { total = 1; non2xx = 1; body_byte = 9 };
  workers = [] ∷ [];
  stage = 4;
  truth = record {
    sent = 1;
    failed = 0;
    refused = 1;
    received = 9;
    sent_before = 0;
    failed_before = 0;
    refused_before = 0;
    received_before = 0;
  };
}

final-Reach : Reach 1 final
unfolding start zero_counters tally_answer apply count_op latch_at latch_total latch_errs
    latch_non2xx latch_body
final-Reach =
    let opened =
      then (then (then (then begun (latched refl)) (latched refl)) (latched refl)) (latched refl) in
    let called = then opened (answered [] [] (all fetch) refusal refl refl) in
    let counted = then called (operated [] [] add_total _ refl refl) in
    let refused = then counted (operated [] [] add_non2xx _ refl refl) in
    then refused (operated [] [] (add_body 9) [] refl refl)

plateau_exact_example :
    (plateau_requests final.counters + 0 ≡ 1)
    × (plateau_errors final.counters + 0 ≡ 0)
    × (plateau_non2xx final.counters + 0 ≡ 1)
    × ((plateau_body_bytes final.counters + 0) % word ≡ 9 % word)
plateau_exact_example = plateau_exact final-Reach refl (refl, tt) (omega arith)

plateau_bounded_example :
    plateau_errors final.counters + plateau_non2xx final.counters
    ≤ plateau_requests final.counters + 1
plateau_bounded_example = plateau_bounded final-Reach refl (refl, tt) (omega arith)

late_error_example :
    (s : System) × Reach 65 s
    × (s.stage ≡ 4)
    × IsQuiet s
    × (plateau_requests s.counters ≡ 0)
    × (plateau_errors s.counters ≡ 1)
late_error_example = late_error 64 (all echo) (codes "eof")

-- One tick in the ramp and two in the plateau.
abbrev ticks : List (Tick whole)
ticks =
    record { now = 1; snap = idle_snapshot }
    ∷ record { now = 9; snap = idle_snapshot }
    ∷ record { now = 12; snap = later_snapshot }
    ∷ []

result-run_example : result (run whole 9 ticks new_sampler) ≡ (
  mean whole (mem_of whole) (readings whole 9 ticks),
  highest whole (readings whole 9 ticks),
  mean whole (heap_of whole) (readings whole 9 ticks),
)
unfolding readings new_sampler sum mem_of
result-run_example = result-run whole 9 ticks (omega arith, omega arith, omega arith)
