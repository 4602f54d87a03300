-- ===== src/Load/Loop/Tests.antt =====
-- The loop of the generator with concrete delays.
use poseidon_tests.Prelude.{ℕ, ◌+◌, ◌*◌, ◌/◌, ◌≤◌, ◌<◌, ◌≡◌, List, some, length, All}
use poseidon_tests.Samples.{whole}
use poseidon_tests.Load.{slice, Profile, total}
use poseidon_tests.Load.Loop.{Delays, slices, slices_total}

-- Half a second, with no ramp.
abbrev short : Profile whole
short = record { target_rps = 20; ramp = 0; plateau = 500000000 }

-- The permits of later rounds wait for longer.
abbrev busy : Delays
busy = record { thinks = λ k. 1000; blocks = λ k i. k * 70000000; oversleeps = λ k i. 50000 + i }

slices_total_example :
    (ns : List ℕ) × (slices whole short busy (total whole short / slice + 2) 0 0 ≡ some ns)
    × (length ns ≤ total whole short / slice + 1)
    × All (λ n. 0 < n) ns
slices_total_example = slices_total whole short busy
