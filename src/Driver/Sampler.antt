-- ===== src/Driver/Sampler.antt =====
-- `residentSampler` of cmd/driver/main.go: the resident memory over the plateau. The mutex makes each
-- tick one step; the ticks come as a list, in order.
pub mod Bounds
use poseidon_tests.Prelude.{ℕ, ◌/◌, List, [], ◌∷◌, if◌then◌else◌, ltb, ◌==◌, add64}
use poseidon_tests.Go.Floats.{Floats}
use poseidon_tests.SelfMetrics.{Snapshot}

pub record Sampler : Type 0 where
  pub rss_sum : ℕ
  pub heap_sum : ℕ
  pub n : ℕ
  pub rss_peak : ℕ

unfoldable pub new_sampler : Sampler
new_sampler = record { rss_sum = 0; heap_sum = 0; n = 0; rss_peak = 0 }

module _ (fl : Floats) where
  -- What the sampler meets on a tick: the clock, and the snapshot it reads then.
  pub record Tick : Type 0 where
    pub now : ℕ
    pub snap : Snapshot fl

  unfoldable pub mem_of : Snapshot fl → ℕ
  mem_of snap = if snap.rss_bytes == 0 then snap.total_mem_bytes else snap.rss_bytes

  unfoldable pub add_reading : Snapshot fl → Sampler → Sampler
  add_reading snap s =
      let mem = mem_of snap in
      record {
        rss_sum = add64 s.rss_sum mem;
        heap_sum = add64 s.heap_sum snap.heap_objects_bytes;
        n = add64 s.n 1;
        rss_peak = if ltb s.rss_peak mem then mem else s.rss_peak;
      }

  unfoldable pub on_tick : ℕ → Tick → Sampler → Sampler
  on_tick plateau_start t s = if ltb t.now plateau_start then s else add_reading t.snap s

  -- `run`, until the context is done.
  unfoldable pub run : ℕ → List Tick → Sampler → Sampler
  run plateau_start [] s = s
  run plateau_start (t ∷ ts) s = run plateau_start ts (on_tick plateau_start t s)

-- The average and the peak of the resident memory, and the average of the heap.
unfoldable pub result : Sampler → ℕ × ℕ × ℕ
result s = if s.n == 0 then (0, s.rss_peak, 0) else (s.rss_sum / s.n, s.rss_peak, s.heap_sum / s.n)
