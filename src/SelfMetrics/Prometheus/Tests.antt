-- ===== src/SelfMetrics/Prometheus/Tests.antt =====
-- A witness of the scraped text, with whole numbers in place of floating point.
use poseidon_tests.Prelude.{
  ℕ, Bytes, [], ◌∷◌, ◌++◌, All, ◌≢◌, arith, map, ◌==◌, if◌then◌else◌, ◌≡◌, codes,
}
use poseidon_tests.Go.Strconv.{format}
use poseidon_tests.Samples.{whole, later_snapshot}
use poseidon_tests.SelfMetrics.Prometheus.{Printer, label, write_prometheus}
use poseidon_tests.SelfMetrics.Prometheus.Scrape.{scrape}
use poseidon_tests.SelfMetrics.Prometheus.Series.{
  IsPlain, format-plain, series, scrape-write_prometheus,
}

-- A quotation that leaves the line feeds out.
abbrev plain_byte : ℕ → ℕ
plain_byte c = if c == 10 then 32 else c

abbrev quoted : Bytes → Bytes
quoted s = 34 ∷ (map plain_byte s ++ (34 ∷ []))

quoted_line : (s : Bytes) → All (λ c. c ≢ 10) (map plain_byte s ++ (34 ∷ []))
quoted_line [] = (omega arith, tt)
quoted_line (c ∷ s) = (ground arith, quoted_line s)

abbrev printer : Printer whole
printer = record { show = format; quote = quoted }

printer-IsPlain : IsPlain printer
printer-IsPlain = (format-plain, λ s. (omega arith, quoted_line s))

scrape-write_prometheus_example :
    scrape (write_prometheus printer (codes "h2") (codes "poseidon") later_snapshot 7 1)
    ≡ series printer later_snapshot 7 1 (label printer.quote (codes "h2") (codes "poseidon"))
scrape-write_prometheus_example =
    scrape-write_prometheus printer later_snapshot 7 1 (codes "h2") (codes "poseidon")
      printer-IsPlain
