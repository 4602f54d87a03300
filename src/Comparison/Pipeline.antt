-- ===== src/Comparison/Pipeline.antt =====
-- How a driver's report reaches scripts/report.py: the JSON of the struct's tags, and the extraction of
-- the marked line from the log of a job by scripts/run.sh.
pub mod Collected
pub mod Fields
pub mod Flagged
pub mod Unflagged
use poseidon_tests.Prelude.{
  ℕ, List, [], ◌∷◌, map, Option, Bytes, codes, if◌then◌else◌, length, drop, get_last?,
}
use poseidon_tests.Go.Floats.{Floats}
use poseidon_tests.Go.Strings.{has_prefix}
use poseidon_tests.SelfMetrics.{Snapshot}
use poseidon_tests.Driver.Report.{Report, report_marker}
use poseidon_tests.Comparison.Numbers.{Numbers}
use poseidon_tests.Comparison.Value.{Value, boolean, float, str, dict, Members, end, member}

-- `grep '^POSEIDON_REPORT_JSON '`
unfoldable pub grep : List Bytes → List Bytes
unfolding has_prefix report_marker
grep [] = []
grep (l ∷ log) = if has_prefix l report_marker then l ∷ grep log else grep log

-- `sed 's/^POSEIDON_REPORT_JSON //'`, on a line that has the marker.
unfoldable pub unmark : Bytes → Bytes
unfolding report_marker
unmark l = drop (length report_marker) l

-- What is stored of the lines of a job's log. Under `set -euo pipefail`, a log without a marked line
-- ends the script, which is `none`.
unfoldable pub collect : List Bytes → Option Bytes
unfolding grep unmark
collect log = get_last? (map unmark (grep log))

-- The two streams of a job as `kubectl logs` merges them, by lines.
pub data Merged : List Bytes → List Bytes → List Bytes → Type 0 where
  quiet : Merged [] [] []
  out_line :
      (l : Bytes) {out err log : List Bytes} → Merged out err log → Merged (l ∷ out) err (l ∷ log)
  err_line :
      (l : Bytes) {out err log : List Bytes} → Merged out err log → Merged out (l ∷ err) (l ∷ log)

-- What becomes of a value on its way through JSON: of a float64, of an int, and of a time.
pub record Wire (fl : Floats) (py : Numbers) : Type 0 where
  pub real : fl.Float → py.Number
  pub int : ℕ → py.Number
  pub instant : ℕ → Bytes

abbrev Fields : Numbers → Type 0
Fields py = List (Bytes × Value py)

module _ {fl : Floats} (py : Numbers) (wire : Wire fl py) where
  unfoldable pub members : Fields py → Members py
  members [] = end
  members ((k, v) ∷ fs) = member k v (members fs)

  abbrev uint : ℕ → Value py
  uint n = float (py.of_nat n)

  abbrev real : fl.Float → Value py
  real x = float (wire.real x)

  unfoldable pub snapshot_value : Snapshot fl → Value py
  unfolding members
  snapshot_value s = dict (
      members (
        (codes "at", str (wire.instant s.at))
        ∷ (codes "cpu_busy_seconds", real s.cpu_busy_seconds)
        ∷ (codes "cpu_proc_user_seconds", real s.cpu_proc_user_seconds)
        ∷ (codes "cpu_proc_sys_seconds", real s.cpu_proc_sys_seconds)
        ∷ (codes "cpu_runtime_seconds", real s.cpu_runtime_seconds)
        ∷ (codes "cpu_user_seconds", real s.cpu_user_seconds)
        ∷ (codes "cpu_gc_seconds", real s.cpu_gc_seconds)
        ∷ (codes "cpu_stats_total_seconds", real s.cpu_stats_total_seconds)
        ∷ (codes "cpu_stats_idle_seconds", real s.cpu_stats_idle_seconds)
        ∷ (codes "uptime_seconds", real s.uptime_seconds)
        ∷ (codes "gomaxprocs", float (wire.int s.gomaxprocs))
        ∷ (codes "gc_cycles", uint s.gc_cycles)
        ∷ (codes "alloc_bytes", uint s.alloc_bytes)
        ∷ (codes "alloc_objects", uint s.alloc_objects)
        ∷ (codes "heap_objects_bytes", uint s.heap_objects_bytes)
        ∷ (codes "total_mem_bytes", uint s.total_mem_bytes)
        ∷ (codes "rss_bytes", uint s.rss_bytes)
        ∷ (codes "goroutines", uint s.goroutines)
        ∷ []))

  -- `omitempty`
  unfoldable pub with_sample : Bytes → Fields py → Fields py
  with_sample [] fs = fs
  with_sample (c ∷ s) fs = (codes "sample_error", str (c ∷ s)) ∷ fs

  unfoldable pub report_value : Report fl → Value py
  unfolding members snapshot_value with_sample
  report_value r = dict (
      members (
        (codes "regime", str r.regime)
        ∷ (codes "arm", str r.arm)
        ∷ (
          codes "profile",
          dict (
              members (
                (codes "target_rps", real r.target_rps)
                ∷ (codes "ramp_seconds", real r.ramp_sec)
                ∷ (codes "plateau_seconds", real r.plateau_sec)
                ∷ [])),
        )
        ∷ (codes "plateau_requests", uint r.plateau_requests)
        ∷ (codes "plateau_errors", uint r.plateau_errors)
        ∷ (codes "plateau_non_2xx", uint r.plateau_non2xx)
        ∷ (codes "achieved_rps", real r.achieved_rps)
        ∷ with_sample r.sample_error (
            (codes "plateau_body_bytes", uint r.plateau_body_bytes)
            ∷ (codes "cpu_busy_seconds", real r.cpu_busy_seconds)
            ∷ (codes "cpu_millicores", real r.cpu_millicores)
            ∷ (codes "cpu_proc_user_seconds", real r.cpu_proc_user_seconds)
            ∷ (codes "cpu_proc_sys_seconds", real r.cpu_proc_sys_seconds)
            ∷ (codes "cpu_runtime_seconds", real r.cpu_runtime_seconds)
            ∷ (codes "cpu_gc_seconds", real r.cpu_gc_seconds)
            ∷ (codes "cpu_runtime_window_seconds", real r.cpu_runtime_window_sec)
            ∷ (codes "cpu_runtime_valid", boolean r.cpu_runtime_valid)
            ∷ (codes "gc_cycles", uint r.gc_cycles)
            ∷ (codes "alloc_bytes_total", uint r.alloc_bytes_total)
            ∷ (codes "alloc_objects_total", uint r.alloc_objects_total)
            ∷ (codes "alloc_bytes_per_req", real r.alloc_bytes_per_req)
            ∷ (codes "allocs_per_req", real r.allocs_per_req)
            ∷ (codes "rss_avg_bytes", uint r.rss_avg_bytes)
            ∷ (codes "rss_peak_bytes", uint r.rss_peak_bytes)
            ∷ (codes "heap_avg_bytes", uint r.heap_avg_bytes)
            ∷ (codes "plateau_start_snapshot", snapshot_value r.start)
            ∷ (codes "plateau_end_snapshot", snapshot_value r.end)
            ∷ [])))
