-- ===== src/SelfMetrics/Window.antt =====
-- What a difference of two snapshots keeps, and which of them `RuntimeCPUUsable` turns away.
use poseidon_tests.Prelude.{
  ℕ, ◌<◌, ◌≡◌, false, arith, word, add64, add64-sub64, not_pos, Bool-cases, inl, inr,
}
use poseidon_tests.Go.Floats.{Floats}
use poseidon_tests.SelfMetrics.{Snapshot, sub, runtime_window, runtime_cpu_usable}

module _ (fl : Floats) where
  -- A number less itself, over a positive number of processors, is a zero duration.
  abbrev pub HasNoWidth : fl.Float → Type 0
  HasNoWidth x =
      (g : ℕ)
      → not_pos g ≡ false
      → fl.to_int (fl.mul (fl.div (fl.sub x x) (fl.of_int g)) (fl.lit 1000000000 1)) ≡ 0

  -- The counters of the runtime are read as 64-bit words.
  abbrev pub IsWords : Snapshot fl → Type 0
  IsWords s = (s.gc_cycles < word) × (s.alloc_bytes < word) × (s.alloc_objects < word)

  -- For counters that are 64-bit words, the differences of the runtime's counters bring the start's
  -- readings back to the end's modulo 2 ^ 64, also where a counter has wrapped around in between.
  pub add64-sub :
      (start end : Snapshot fl)
      → IsWords start
      → IsWords end
      → (add64 start.gc_cycles (sub fl start end).gc_cycles ≡ end.gc_cycles)
        × (add64 start.alloc_bytes (sub fl start end).alloc_bytes ≡ end.alloc_bytes)
        × (add64 start.alloc_objects (sub fl start end).alloc_objects ≡ end.alloc_objects)
  unfolding sub
  add64-sub start end small_start small_end = (
    add64-sub64 start.gc_cycles end.gc_cycles small_start.0 small_end.0,
    add64-sub64 start.alloc_bytes end.alloc_bytes small_start.1 small_end.1,
    add64-sub64 start.alloc_objects end.alloc_objects small_start.2 small_end.2,
  )

  -- If no garbage collection refreshed the runtime's total between the two snapshots, then the
  -- runtime's figures are never called usable, whatever the processors and the duration. The hypothesis
  -- on floating point is that the total less itself, over a positive number of processors, is a zero
  -- duration, as it is for a total that is a finite number.
  pub frozen_window :
      (start end : Snapshot fl)
      → HasNoWidth start.cpu_stats_total_seconds
      → end.cpu_stats_total_seconds ≡ start.cpu_stats_total_seconds
      → runtime_cpu_usable fl (sub fl start end) ≡ false
  unfolding sub runtime_window runtime_cpu_usable
  frozen_window start end no_interval frozen = elim (Bool-cases (not_pos end.gomaxprocs)) [
    | inl none_there ↦ rw none_there (ground arith)
    | inr some_there ↦ rw (some_there, frozen, no_interval end.gomaxprocs some_there) (ground arith)
  ]
