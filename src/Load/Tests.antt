-- ===== src/Load/Tests.antt =====
-- The ticker's theorems at concrete inputs.
use poseidon_tests.Prelude.{◌+◌, ◌≤◌, ◌≡◌, refl, false, arith}
use poseidon_tests.Samples.{whole}
use poseidon_tests.Load.{Profile, decide, rate_at, total, permits_at}
use poseidon_tests.Load.Ticker.{
  deciding, stand_behind, Ticker, new_ticker, on_decision, release, Steps, here, then, decided, put,
}
use poseidon_tests.Load.Ticker.Pacing.{left_of, run_paced}

-- Twenty requests per second for ten seconds, with no ramp.
abbrev twenty : Profile whole
twenty = record { target_rps = 20; ramp = 0; plateau = 10000000000 }

-- A first slice of one permit, which is in the channel.
abbrev begun : Ticker
begun = record {
  stand = deciding;
  is_done = false;
  buffered = 1;
  planned = 1;
  released = 1;
  taken = 0;
}

begun-Steps : Steps whole twenty new_ticker begun
unfolding new_ticker decide rate_at total permits_at on_decision release stand_behind
begun-Steps = then (then here (decided 0 refl refl)) (put 0 refl (omega arith) refl)

run_paced_example :
    (begun.taken ≤ begun.released)
    × (begun.released ≤ begun.taken + 64)
    × (begun.released ≤ begun.planned)
    × (begun.is_done ≡ false → begun.released + left_of begun.stand ≡ begun.planned)
run_paced_example = run_paced whole twenty begun-Steps
