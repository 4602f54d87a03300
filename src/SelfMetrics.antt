-- ===== src/SelfMetrics.antt =====
-- internal/selfmetrics/selfmetrics.go: snapshots of the driver's own resource use, and their
-- difference. An instant is its nanosecond on the monotonic clock, a duration a difference of two.
pub mod Cpu
pub mod Rss
pub mod Reading
pub mod Window
pub mod Prometheus
mod Tests
use poseidon_tests.Prelude.{ℕ, Bool, false, ◌||◌, ◌&&◌, if◌then◌else◌, sub64, not_pos}
use poseidon_tests.Go.Floats.{Floats}

pub record Snapshot (fl : Floats) : Type 0 where
  pub at : ℕ  -- time.Time
  pub cpu_busy_seconds : fl.Float
  pub cpu_proc_user_seconds : fl.Float
  pub cpu_proc_sys_seconds : fl.Float
  pub cpu_runtime_seconds : fl.Float
  pub cpu_user_seconds : fl.Float
  pub cpu_gc_seconds : fl.Float
  pub cpu_stats_total_seconds : fl.Float
  pub cpu_stats_idle_seconds : fl.Float
  pub uptime_seconds : fl.Float
  pub gomaxprocs : ℕ  -- int
  pub gc_cycles : ℕ
  pub alloc_bytes : ℕ
  pub alloc_objects : ℕ
  pub heap_objects_bytes : ℕ
  pub total_mem_bytes : ℕ
  pub rss_bytes : ℕ
  pub goroutines : ℕ

pub record Delta (fl : Floats) : Type 0 where
  pub duration : ℕ  -- time.Duration
  pub cpu_busy_seconds : fl.Float
  pub cpu_proc_user_seconds : fl.Float
  pub cpu_proc_sys_seconds : fl.Float
  pub cpu_runtime_seconds : fl.Float
  pub cpu_user_seconds : fl.Float
  pub cpu_gc_seconds : fl.Float
  pub runtime_window : ℕ  -- time.Duration
  pub gc_cycles : ℕ
  pub alloc_bytes : ℕ
  pub alloc_objects : ℕ

module _ (fl : Floats) where
  unfoldable pub runtime_cpu_usable : Delta fl → Bool
  runtime_cpu_usable d =
      if not_pos d.duration || not_pos d.runtime_window
      then false
      else (let r = fl.div (fl.seconds d.runtime_window) (fl.seconds d.duration) in
          fl.lt (fl.lit 9 10) r && fl.lt r (fl.lit 11 10))

  -- The length of the window that the runtime's figures span.
  unfoldable pub runtime_window : Snapshot fl → Snapshot fl → ℕ
  runtime_window start end =
      if not_pos end.gomaxprocs
      then 0
      else (let secs =
            fl.div (fl.sub end.cpu_stats_total_seconds start.cpu_stats_total_seconds)
              (fl.of_int end.gomaxprocs) in
          fl.to_int (fl.mul secs (fl.lit 1000000000 1)))

  unfoldable pub sub : Snapshot fl → Snapshot fl → Delta fl
  sub start end = record {
    duration = sub64 end.at start.at;
    cpu_busy_seconds = fl.sub end.cpu_busy_seconds start.cpu_busy_seconds;
    cpu_proc_user_seconds = fl.sub end.cpu_proc_user_seconds start.cpu_proc_user_seconds;
    cpu_proc_sys_seconds = fl.sub end.cpu_proc_sys_seconds start.cpu_proc_sys_seconds;
    cpu_runtime_seconds = fl.sub end.cpu_runtime_seconds start.cpu_runtime_seconds;
    cpu_user_seconds = fl.sub end.cpu_user_seconds start.cpu_user_seconds;
    cpu_gc_seconds = fl.sub end.cpu_gc_seconds start.cpu_gc_seconds;
    runtime_window = runtime_window start end;
    gc_cycles = sub64 end.gc_cycles start.gc_cycles;
    alloc_bytes = sub64 end.alloc_bytes start.alloc_bytes;
    alloc_objects = sub64 end.alloc_objects start.alloc_objects;
  }
