-- ===== src/SelfMetrics/Prometheus/Series.antt =====
-- The series that a scrape of the driver finds.
use poseidon_tests.Prelude.{
  ℕ, ◌≡◌, ◌≢◌, refl, ◌∙◌, List, [], ◌∷◌, ◌++◌, Bytes, codes, All, All-append, arith,
}
use poseidon_tests.Go.Floats.{Floats}
use poseidon_tests.Go.Strconv.{format, format-IsDigit, IsDigit}
use poseidon_tests.Go.Strings.{without_lem, has_prefix}
use poseidon_tests.SelfMetrics.{Snapshot}
use poseidon_tests.SelfMetrics.Prometheus.{
  Printer, label, counter, gauge, metrics, write_prometheus,
}
use poseidon_tests.SelfMetrics.Prometheus.Scrape.{scrape, IsMetric, All-map, write_all-scrape}

-- A printed number has no white space, and a quoted text no line feed.
abbrev pub IsPlain : {fl : Floats} → Printer fl → Type 0
IsPlain {fl} pr =
    ((x : fl.Float) → All (λ c. (c ≢ 10) × (c ≢ 32)) (pr.show x))
    × ((s : Bytes) → All (λ c. c ≢ 10) (pr.quote s))

pub format-plain : (n : ℕ) → All (λ c. (c ≢ 10) × (c ≢ 32)) (format n)
format-plain n =
    All-map (format n) (λ c (d : IsDigit c). (omega (arith, d), omega (arith, d)))
      (format-IsDigit n)

module _ {fl : Floats} (pr : Printer fl) (s : Snapshot fl) (reqs errs : ℕ) where
  abbrev pub series : (lbl : Bytes) → List (Bytes × Bytes)
  series lbl =
      (codes "driver_cpu_busy_seconds_total" ++ lbl, pr.show s.cpu_busy_seconds)
      ∷ (codes "driver_cpu_gc_seconds_total" ++ lbl, pr.show s.cpu_gc_seconds)
      ∷ (codes "driver_alloc_bytes_total" ++ lbl, format s.alloc_bytes)
      ∷ (codes "driver_alloc_objects_total" ++ lbl, format s.alloc_objects)
      ∷ (codes "driver_heap_objects_bytes" ++ lbl, format s.heap_objects_bytes)
      ∷ (codes "driver_mem_total_bytes" ++ lbl, format s.total_mem_bytes)
      ∷ (codes "driver_rss_bytes" ++ lbl, format s.rss_bytes)
      ∷ (codes "driver_goroutines" ++ lbl, format s.goroutines)
      ∷ (codes "driver_requests_total" ++ lbl, format reqs)
      ∷ (codes "driver_request_errors_total" ++ lbl, format errs)
      ∷ []

  metrics-IsMetric : IsPlain pr → All IsMetric (metrics pr s reqs errs)
  unfolding metrics counter gauge has_prefix
  metrics-IsMetric plain =
      let float = plain.0 in
      (
        (refl, refl, refl, refl, float s.cpu_busy_seconds),
        (
          (refl, refl, refl, refl, float s.cpu_gc_seconds),
          (
            (refl, refl, refl, refl, format-plain s.alloc_bytes),
            (
              (refl, refl, refl, refl, format-plain s.alloc_objects),
              (
                (refl, refl, refl, refl, format-plain s.heap_objects_bytes),
                (
                  (refl, refl, refl, refl, format-plain s.total_mem_bytes),
                  (
                    (refl, refl, refl, refl, format-plain s.rss_bytes),
                    (
                      (refl, refl, refl, refl, format-plain s.goroutines),
                      (
                        (refl, refl, refl, refl, format-plain reqs),
                        ((refl, refl, refl, refl, format-plain errs), tt),
                      ),
                    ),
                  ),
                ),
              ),
            ),
          ),
        ),
      )

  label_line : (regime arm : Bytes) → IsPlain pr → All (λ c. c ≢ 10) (label pr.quote regime arm)
  unfolding label
  label_line regime arm plain =
      let NoFeed : ℕ → Type 0 = λ c. c ≢ 10 in
      All-append NoFeed (codes "{regime=") _ (without_lem 10 (codes "{regime=") refl) (
        All-append NoFeed (pr.quote regime) _ (plain.1 regime) (
          All-append NoFeed (codes ",arm=") _ (without_lem 10 (codes ",arm=") refl)
            (All-append NoFeed (pr.quote arm) _ (plain.1 arm) (without_lem 10 (codes "}") refl))))

  -- Where printed numbers have no white space and quoted texts no line feed, a scraper that skips
  -- comments and cuts each line at its last space finds ten series in the text, in order: each is
  -- labelled with the regime and the arm, and has the value of the snapshot that it is named for, or
  -- the count of the requests or of the errors.
  pub scrape-write_prometheus :
      (regime arm : Bytes)
      → IsPlain pr
      → scrape (write_prometheus pr regime arm s reqs errs) ≡ series (label pr.quote regime arm)
  unfolding write_prometheus
  scrape-write_prometheus regime arm plain =
      write_all-scrape (label pr.quote regime arm) (metrics pr s reqs errs)
        (label_line regime arm plain) (metrics-IsMetric plain)
      ∙ unfold metrics in unfold counter in unfold gauge in refl
