-- ===== src/Comparison/Pipeline/Fields.antt =====
-- What scripts/report.py reads from a driver's report.
use poseidon_tests.Prelude.{◌≡◌, refl, [], ◌∷◌, some, Bytes, codes, ◌>>=◌}
use poseidon_tests.Go.Floats.{Floats}
use poseidon_tests.Driver.Report.{Report}
use poseidon_tests.Comparison.Numbers.{Numbers}
use poseidon_tests.Comparison.Value.{Value, boolean, str, member_of, get, number}
use poseidon_tests.Comparison.Pipeline.{Wire, members, with_sample, report_value, snapshot_value}

module _ {fl : Floats} (py : Numbers) (wire : Wire fl py) where
  -- The figures that the script reads, by their keys.
  pub record ReadsAs (v : Value py) (r : Report fl) : Type 0 where
    pub requests : number py v (codes "plateau_requests") ≡ some (py.of_nat r.plateau_requests)
    pub errors : number py v (codes "plateau_errors") ≡ some (py.of_nat r.plateau_errors)
    pub non_2xx : number py v (codes "plateau_non_2xx") ≡ some (py.of_nat r.plateau_non2xx)
    pub rps : number py v (codes "achieved_rps") ≡ some (wire.real r.achieved_rps)
    pub body : number py v (codes "plateau_body_bytes") ≡ some (py.of_nat r.plateau_body_bytes)
    pub millicores : number py v (codes "cpu_millicores") ≡ some (wire.real r.cpu_millicores)
    pub rss_avg : number py v (codes "rss_avg_bytes") ≡ some (py.of_nat r.rss_avg_bytes)
    pub rss_peak : number py v (codes "rss_peak_bytes") ≡ some (py.of_nat r.rss_peak_bytes)
    pub allocs : number py v (codes "allocs_per_req") ≡ some (wire.real r.allocs_per_req)
    pub alloc_bytes :
        number py v (codes "alloc_bytes_per_req") ≡ some (wire.real r.alloc_bytes_per_req)
    pub window :
        number py v (codes "cpu_runtime_window_seconds") ≡ some (wire.real r.cpu_runtime_window_sec)
    pub cycles : number py v (codes "gc_cycles") ≡ some (py.of_nat r.gc_cycles)
    pub valid : get py v (codes "cpu_runtime_valid") ≡ some (boolean r.cpu_runtime_valid)
    pub target :
        (get py v (codes "profile") >>= λ (profile : Value py).
        number py profile (codes "target_rps"))
        ≡ some (wire.real r.target_rps)
    pub started :
        (get py v (codes "plateau_start_snapshot") >>= λ (s : Value py). get py s (codes "at"))
        ≡ some (str (wire.instant r.start.at))
    pub ended :
        (get py v (codes "plateau_end_snapshot") >>= λ (s : Value py). get py s (codes "at"))
        ≡ some (str (wire.instant r.end.at))

  with_sample-ReadsAs :
      (sample : Bytes) (r : Report fl)
      → ReadsAs
          (report_value py wire (record r { sample_error = sample }))
          (record r { sample_error = sample })
  unfolding number get report_value members member_of with_sample snapshot_value
  with_sample-ReadsAs [] r = record {
    requests = refl;
    errors = refl;
    non_2xx = refl;
    rps = refl;
    body = refl;
    millicores = refl;
    rss_avg = refl;
    rss_peak = refl;
    allocs = refl;
    alloc_bytes = refl;
    window = refl;
    cycles = refl;
    valid = refl;
    target = refl;
    started = refl;
    ended = refl;
  }
  with_sample-ReadsAs (c ∷ s) r = record {
    requests = refl;
    errors = refl;
    non_2xx = refl;
    rps = refl;
    body = refl;
    millicores = refl;
    rss_avg = refl;
    rss_peak = refl;
    allocs = refl;
    alloc_bytes = refl;
    window = refl;
    cycles = refl;
    valid = refl;
    target = refl;
    started = refl;
    ended = refl;
  }

  -- Every key that the script reads is the tag of the report's field of that meaning, with or without
  -- a sample of an error: the rates, the counts and the figures of the tables and of the checks.
  pub report_value-ReadsAs : (r : Report fl) → ReadsAs (report_value py wire r) r
  report_value-ReadsAs r = with_sample-ReadsAs r.sample_error r
