-- ===== src/Driver/Report.antt =====
-- The report of cmd/driver/main.go: `buildReport` and `emit`.
pub mod Emitted
use poseidon_tests.Prelude.{
  ℕ, Bool, List, [], ◌∷◌, ◌++◌, Option, none, some, Bytes, codes, ◌⊎◌, inl, inr, if◌then◌else◌,
  ◌==◌,
}
use poseidon_tests.Go.Floats.{Floats}
use poseidon_tests.SelfMetrics.{Snapshot, sub, runtime_cpu_usable}
use poseidon_tests.Load.{Profile}
use poseidon_tests.Driver.Counters.{
  Counters, plateau_requests, plateau_errors, plateau_non2xx, plateau_body_bytes,
}
use poseidon_tests.Driver.Sampler.{Sampler, result}

unfoldable pub report_marker : Bytes
report_marker = codes "POSEIDON_REPORT_JSON "

module _ (fl : Floats) where
  pub record Report : Type 0 where
    pub regime : Bytes
    pub arm : Bytes
    pub target_rps : fl.Float
    pub ramp_sec : fl.Float
    pub plateau_sec : fl.Float
    pub plateau_requests : ℕ
    pub plateau_errors : ℕ
    pub plateau_non2xx : ℕ
    pub achieved_rps : fl.Float
    pub sample_error : Bytes
    pub plateau_body_bytes : ℕ
    pub cpu_busy_seconds : fl.Float
    pub cpu_millicores : fl.Float
    pub cpu_proc_user_seconds : fl.Float
    pub cpu_proc_sys_seconds : fl.Float
    pub cpu_runtime_seconds : fl.Float
    pub cpu_gc_seconds : fl.Float
    pub cpu_runtime_window_sec : fl.Float
    pub cpu_runtime_valid : Bool
    pub gc_cycles : ℕ
    pub alloc_bytes_total : ℕ
    pub alloc_objects_total : ℕ
    pub alloc_bytes_per_req : fl.Float
    pub allocs_per_req : fl.Float
    pub rss_avg_bytes : ℕ
    pub rss_peak_bytes : ℕ
    pub heap_avg_bytes : ℕ
    pub start : Snapshot fl
    pub end : Snapshot fl

  abbrev zero_float : fl.Float
  zero_float = fl.lit 0 1

  -- An unset error is the empty string.
  abbrev pub text_of : Option Bytes → Bytes
  text_of none = []
  text_of (some e) = e

  unfoldable pub build_report :
      Bytes → Bytes → Profile fl → Counters → Snapshot fl → Snapshot fl → Sampler → Report
  build_report regime arm profile cs start end sampler =
      let d = sub fl start end in
      let reqs = plateau_requests cs in
      let secs = fl.seconds d.duration in
      let lasted = fl.lt zero_float secs in
      let (rss_avg, rss_peak, heap_avg) = result sampler in
      record {
        regime = regime;
        arm = arm;
        target_rps = profile.target_rps;
        ramp_sec = fl.seconds profile.ramp;
        plateau_sec = fl.seconds profile.plateau;
        plateau_requests = reqs;
        plateau_errors = plateau_errors cs;
        plateau_non2xx = plateau_non2xx cs;
        achieved_rps = if lasted then fl.div (fl.of_uint reqs) secs else zero_float;
        sample_error = text_of cs.first_err;
        plateau_body_bytes = plateau_body_bytes cs;
        cpu_busy_seconds = d.cpu_busy_seconds;
        cpu_millicores =
            if lasted then fl.mul (fl.div d.cpu_busy_seconds secs) (fl.lit 1000 1) else zero_float;
        cpu_proc_user_seconds = d.cpu_proc_user_seconds;
        cpu_proc_sys_seconds = d.cpu_proc_sys_seconds;
        cpu_runtime_seconds = d.cpu_runtime_seconds;
        cpu_gc_seconds = d.cpu_gc_seconds;
        cpu_runtime_window_sec = fl.seconds d.runtime_window;
        cpu_runtime_valid = runtime_cpu_usable fl d;
        gc_cycles = d.gc_cycles;
        alloc_bytes_total = d.alloc_bytes;
        alloc_objects_total = d.alloc_objects;
        alloc_bytes_per_req =
            if reqs == 0 then zero_float else fl.div (fl.of_uint d.alloc_bytes) (fl.of_uint reqs);
        allocs_per_req =
            if reqs == 0 then zero_float else fl.div (fl.of_uint d.alloc_objects) (fl.of_uint reqs);
        rss_avg_bytes = rss_avg;
        rss_peak_bytes = rss_peak;
        heap_avg_bytes = heap_avg;
        start = start;
        end = end;
      }

  -- What `emit` does to the outside: a file written, a line on stderr with what it prints, and a line
  -- on stdout.
  pub data Effect : Type 0 where
    wrote_file : (out_path pretty : Bytes) → Effect
    logged_write_error : (out_path reason : Bytes) → Effect
    logged_done : (requests : ℕ) (rps allocs_per_req millicores : fl.Float) → Effect
    logged_warning : (gc_cycles : ℕ) (window plateau : fl.Float) → Effect
    logged_fatal : (reason : Bytes) → Effect
    printed : Bytes → Effect

  -- The two encoders of the report, and the error of a file's writing, if there is one.
  pub record Output : Type 0 where
    pub marshal_indent : Report → Bytes ⊎ Bytes
    pub marshal : Report → Bytes ⊎ Bytes
    pub write_file : Bytes → Option Bytes

  abbrev pub write_error : Bytes → Option Bytes → List Effect
  write_error path none = []
  write_error path (some e) = logged_write_error path e ∷ []

  unfoldable pub save : Output → Bytes → Bytes → List Effect
  save o [] pretty = []
  save o (c ∷ path) pretty =
      wrote_file (c ∷ path) pretty ∷ write_error (c ∷ path) (o.write_file (c ∷ path))

  -- The human summary.
  unfoldable pub done_line : Report → Effect
  done_line rep =
      logged_done rep.plateau_requests rep.achieved_rps rep.allocs_per_req rep.cpu_millicores

  unfoldable pub warning_line : Report → Effect
  warning_line rep = logged_warning rep.gc_cycles rep.cpu_runtime_window_sec rep.plateau_sec

  -- Each call of `log.Fatalf` ends the process.
  unfoldable pub emit_encoded :
      Output → Report → Bytes → Bytes ⊎ Bytes → Bytes ⊎ Bytes → List Effect
  emit_encoded o rep out_path (inl e) compact = logged_fatal e ∷ []
  emit_encoded o rep out_path (inr pretty) (inl e) = logged_fatal e ∷ []
  emit_encoded o rep out_path (inr pretty) (inr compact) =
      save o out_path pretty
      ++ (done_line rep
          ∷ ((if rep.cpu_runtime_valid then [] else warning_line rep ∷ [])
              ++ (printed (report_marker ++ compact) ∷ [])))

  unfoldable pub emit : Output → Report → Bytes → List Effect
  emit o rep out_path = emit_encoded o rep out_path (o.marshal_indent rep) (o.marshal rep)
