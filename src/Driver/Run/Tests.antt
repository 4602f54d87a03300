-- ===== src/Driver/Run/Tests.antt =====
-- A whole run of the driver at a concrete schedule.
use poseidon_tests.Prelude.{◌+◌, ◌≤◌, ◌≡◌, refl, [], ◌∷◌, inr, false, arith}
use poseidon_tests.Samples.{whole}
use poseidon_tests.Scenario.{all, fetch}
use poseidon_tests.Load.{Profile, decide, rate_at, total, permits_at}
use poseidon_tests.Load.Ticker.{
  deciding, stand_behind, new_ticker, on_decision, release, take, decided, put,
}
use poseidon_tests.Driver.Counters.{
  add_total, add_non2xx, add_body, apply, Reply, tally_answer, zero_counters, latch_total,
  latch_errs, latch_non2xx, latch_body, plateau_requests,
}
use poseidon_tests.Driver.Race.{System, count_op, latch_at, start}
use poseidon_tests.Driver.Run
use poseidon_tests.Driver.Run.{Run, at_rest, begin_run}
use poseidon_tests.Driver.Run.Conserved.{requests_taken}

abbrev slow : Profile whole
slow = record { target_rps = 20; ramp = 0; plateau = 10000000000 }

abbrev refusal : Reply
refusal = record { answer = inr (record { status = 404; body_len = 9 }); cancelled = false }

abbrev final : System
final = record {
  counters = record zero_counters { total = 1; non2xx = 1; body_byte = 9 };
  workers = [] ∷ [];
  stage = 4;
  truth = record {
    sent = 1;
    failed = 0;
    refused = 1;
    received = 9;
    sent_before = 0;
    failed_before = 0;
    refused_before = 0;
    received_before = 0;
  };
}

-- A run of one worker: the latch, a slice of one permit, the call, and its operations.
abbrev whole_run : Run
whole_run = record {
  ticker = record {
    stand = deciding;
    is_done = false;
    buffered = 0;
    planned = 1;
    released = 1;
    taken = 1;
  };
  race = final;
  calling = 0;
}

whole_run-Reach : Run.Reach whole slow 1 whole_run
unfolding begin_run at_rest start zero_counters tally_answer apply count_op latch_at latch_total
    latch_errs latch_non2xx latch_body new_ticker take decide rate_at total permits_at on_decision
    release stand_behind
whole_run-Reach =
    let opened =
      Run.then
        (Run.then (Run.then (Run.then Run.begun (Run.latched refl)) (Run.latched refl))
          (Run.latched refl))
        (Run.latched refl) in
    let planned = Run.then opened (Run.paced _ (decided 0 refl refl) refl refl) in
    let filled = Run.then planned (Run.paced _ (put 0 refl (omega arith) refl) refl refl) in
    let calling = Run.then filled (Run.called 0 refl (omega arith) refl) in
    let replied = Run.then calling (Run.replied 0 [] [] (all fetch) refusal refl refl refl) in
    let sent = Run.then replied (Run.counted [] [] add_total _ refl refl) in
    let refused = Run.then sent (Run.counted [] [] add_non2xx _ refl refl) in
    Run.then refused (Run.counted [] [] (add_body 9) [] refl refl)

requests_taken_example :
    (plateau_requests whole_run.race.counters + 0 ≡ 1)
    × (plateau_requests whole_run.race.counters ≤ 1)
requests_taken_example =
    requests_taken whole slow whole_run-Reach refl (refl, tt) refl (omega arith)
