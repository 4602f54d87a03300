-- ===== src/Driver/Metrics.antt =====
-- `serveMetrics` of cmd/driver/main.go: the multiplexer of the metrics server and its own handlers.
use poseidon_tests.Prelude.{Option, none, some, List, [], ◌∷◌, Bytes, codes, text_eq, if◌then◌else◌}
use poseidon_tests.Go.Floats.{Floats}
use poseidon_tests.Go.Strings.{has_prefix}
use poseidon_tests.SelfMetrics.{Snapshot}
use poseidon_tests.SelfMetrics.Prometheus.{Printer, write_prometheus}
use poseidon_tests.Api.Handlers.{Event, content_type, status_code, wrote}
use poseidon_tests.Driver.Counters.{Counters}

-- The handlers of net/http/pprof.
pub record Pprof : Type 0 where
  pub index : List Event
  pub profile : List Event
  pub handler : (name : Bytes) → List Event

unfoldable pub health : List Event
health = status_code 200 ∷ []

module _ {fl : Floats} (pr : Printer fl) (regime arm : Bytes) where
  -- The handler of /metrics, where `s` is what `selfmetrics.Read` gives. (`WritePrometheus` writes its
  -- text in ten pieces, one for each metric.)
  unfoldable pub metrics_handler : Snapshot fl → Counters → List Event
  metrics_handler s cs =
      content_type (codes "text/plain; version=0.0.4")
      ∷ wrote (write_prometheus pr regime arm s cs.total cs.errs)
      ∷ []

  -- The handler that the multiplexer chooses for a path; a pattern that ends with a slash is a prefix,
  -- and longer patterns win.
  unfoldable pub serve : Pprof → Snapshot fl → Counters → (path : Bytes) → Option (List Event)
  serve pprof s cs path =
      if text_eq path (codes "/metrics")
      then some (metrics_handler s cs)
      else if text_eq path (codes "/healthz")
      then some health
      else if text_eq path (codes "/debug/pprof/profile")
      then some pprof.profile
      else if text_eq path (codes "/debug/pprof/heap")
      then some (pprof.handler (codes "heap"))
      else if text_eq path (codes "/debug/pprof/allocs")
      then some (pprof.handler (codes "allocs"))
      else if has_prefix path (codes "/debug/pprof/")
      then some pprof.index
      else none

-- The end of `serveMetrics`: it listens, and logs the error with which it stops.
pub data Listening : Type 0 where
  listened : (addr : Bytes) → Listening
  logged : (reason : Bytes) → Listening

unfoldable pub serve_metrics : (addr : Bytes) → (stopped : Option Bytes) → List Listening
serve_metrics addr none = listened addr ∷ []
serve_metrics addr (some e) = listened addr ∷ logged e ∷ []
