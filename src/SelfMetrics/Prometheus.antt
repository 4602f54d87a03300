-- ===== src/SelfMetrics/Prometheus.antt =====
-- `WritePrometheus` of internal/selfmetrics/selfmetrics.go.
pub mod Scrape
pub mod Series
mod Tests
use poseidon_tests.Prelude.{ℕ, List, [], ◌∷◌, ◌++◌, Bytes, codes}
use poseidon_tests.Go.Floats.{Floats}
use poseidon_tests.Go.Strconv.{format}
use poseidon_tests.SelfMetrics.{Snapshot}

-- What the program uses of the fmt package beside decimal numbers.
pub record Printer (fl : Floats) : Type 0 where
  -- `%v` of a float64
  pub show : fl.Float → Bytes
  -- `%q`
  pub quote : Bytes → Bytes

-- The arguments of one call of `p`, with the value as it is printed.
pub record Metric : Type 0 where
  pub name : Bytes
  pub help : Bytes
  pub typ : Bytes
  pub value : Bytes

-- `{regime=%q,arm=%q}`
unfoldable pub label : (quote : Bytes → Bytes) (regime arm : Bytes) → Bytes
label quote regime arm =
    codes "{regime=" ++ (quote regime ++ (codes ",arm=" ++ (quote arm ++ codes "}")))

-- `# HELP %s %s\n# TYPE %s %s\n%s%s %v\n`
unfoldable pub metric_text : (lbl : Bytes) → Metric → Bytes
metric_text lbl m =
    codes "# HELP "
    ++ (m.name
        ++ (codes " "
            ++ (m.help
                ++ (10
                    ∷ (codes "# TYPE "
                        ++ (m.name
                            ++ (codes " "
                                ++ (m.typ
                                    ++ (10
                                        ∷ (m.name
                                            ++ (lbl ++ (32 ∷ (m.value ++ (10 ∷ []))))))))))))))

unfoldable pub write_all : (lbl : Bytes) → List Metric → Bytes
write_all lbl [] = []
write_all lbl (m ∷ ms) = metric_text lbl m ++ write_all lbl ms

unfoldable pub counter : (name help value : Bytes) → Metric
counter name help value = record { name = name; help = help; typ = codes "counter"; value = value }

unfoldable pub gauge : (name help value : Bytes) → Metric
gauge name help value = record { name = name; help = help; typ = codes "gauge"; value = value }

module _ {fl : Floats} (pr : Printer fl) where
  -- The calls of `p`, in order.
  unfoldable pub metrics : Snapshot fl → (reqs errs : ℕ) → List Metric
  metrics s reqs errs =
      counter (codes "driver_cpu_busy_seconds_total")
        (codes "Non-idle CPU seconds consumed by the driver.") (pr.show s.cpu_busy_seconds)
      ∷ counter (codes "driver_cpu_gc_seconds_total") (codes "CPU seconds spent in GC.")
          (pr.show s.cpu_gc_seconds)
      ∷ counter (codes "driver_alloc_bytes_total") (codes "Cumulative bytes allocated on the heap.")
          (format s.alloc_bytes)
      ∷ counter (codes "driver_alloc_objects_total") (codes "Cumulative heap objects allocated.")
          (format s.alloc_objects)
      ∷ gauge (codes "driver_heap_objects_bytes") (codes "Live heap object bytes.")
          (format s.heap_objects_bytes)
      ∷ gauge (codes "driver_mem_total_bytes") (codes "Total memory mapped by the Go runtime.")
          (format s.total_mem_bytes)
      ∷ gauge (codes "driver_rss_bytes") (codes "Process resident set size.") (format s.rss_bytes)
      ∷ gauge (codes "driver_goroutines") (codes "Live goroutines.") (format s.goroutines)
      ∷ counter (codes "driver_requests_total") (codes "Requests completed.") (format reqs)
      ∷ counter (codes "driver_request_errors_total")
          (codes "Requests that failed at the transport level.") (format errs)
      ∷ []

  unfoldable pub write_prometheus : (regime arm : Bytes) → Snapshot fl → (reqs errs : ℕ) → Bytes
  write_prometheus regime arm s reqs errs =
      write_all (label pr.quote regime arm) (metrics s reqs errs)
