-- ===== src/Lib.antt =====
-- A verification library for poseidon-tests, a benchmark that drives a target server with two
-- client libraries and compares what each costs.
--
-- The program has two processes. The driver (cmd/driver/main.go) starts a number of workers; each
-- waits for a permit of the load generator, draws a scenario from its mix, takes a path and a body
-- from the pools that all workers share, and issues the call through the client under test. Its
-- counters and its snapshots of the process are latched when the ramp ends, and the report is made
-- of differences. The target (cmd/target/main.go) serves the scenarios' routes over HTTP, and Echo
-- over gRPC.
--
-- Prelude, Go: 64-bit words, lists and text; what the program uses of Go's standard library. A
--   uint64 is a number below 2 ^ 64, and an int the same bit pattern. A string is the list of its
--   bytes. A call that may panic is an Option or an Outcome. Floating point, math/rand and
--   encoding/json are parameters (Go/Floats, Go/Rand, Payload.Json), with the documented range of
--   the random numbers as the only law; chi, net/url and the client libraries are records with laws
--   (Api/Router, Exchange). The text functions cover ASCII white space and case, which is all that
--   the texts in question hold.
-- Scenario: internal/scenario/scenario.go. Mix is `NewMix` and `Next`, PathPool is `NewPathPool`
--   and `Path`, Itoa is `itoa`. Weighted is the choice by weight that Mix shares with the payloads.
-- Payload: internal/payload/payload.go. Generator is `NewGenerator` and `Next`, Pool is `NewPool`,
--   `Next` and `For`. Go/Make is the panic of `make` at a size that cannot be allocated on a 64-bit
--   machine.
-- Api: internal/api/api.go. Handlers has one function for each handler, from the request to what it
--   does to the response writer; Query is `intParam`. Fetch and Stream tie the handlers to the
--   paths of the driver's pool, Flushes has what each flush sends. Router is `Handler`, with chi as
--   a parameter. Escapes in a query are left out.
-- RawGrpc, Target: internal/rawgrpc/rawgrpc.go, and the Echo handler of cmd/target/main.go.
--   Target/Certificate is internal/tlsutil/tlsutil.go, Target/Listeners the servers of `main` and
--   the order in which they start and drain, and Target/Negotiated ties them to the options of
--   ClientSet.
-- ClientSet: internal/clientset. Matrix is the parsers and `New`, Endpoint what the constructors
--   hand to their libraries, Adapters and Grpc the `Do` of the adapters over the libraries as
--   parameters. Close is `Close`. ResponsePool is the `sync.Pool` of `poseidonHTTP`: a store of
--   numbered responses, with a step for each thing a call does to it, and one for an eviction.
-- Load: internal/load/load.go. The decisions of the generator's loop are functions; Ticker is a
--   step relation between the generator, the buffered channel of permits and the workers, with no
--   time; Loop is the generator's loop over time, with its sleeps, and with delays of any
--   length, where `Stop` is not called.
-- SelfMetrics: internal/selfmetrics. Cpu is the three cpu_*.go files, Rss is `readRSS`, Reading is
--   `Read`, Prometheus is `WritePrometheus`, and the module itself has `Snapshot`, `Delta`, `Sub`
--   and `RuntimeCPUUsable`.
-- Driver: cmd/driver/main.go. Counters has the atomic operations, Worker is `runWorker` over the
--   list of replies, Race the workers and the latch of `main` in any interleaving, Sampler is
--   `residentSampler`, Report is `buildReport` and `emit`. Run joins Load/Ticker and Race: a worker
--   holds a permit while the client works. Main is the order of `main` with its early ends, those
--   of `emit` at an encoder's error too, with `writeProfile` and `waitUntil`; Metrics is
--   `serveMetrics`.
-- Comparison: scripts/report.py, over Python's floats as a parameter (Numbers). Value is what
--   `json.load` gives and `number`, Loading is `load_reports`, Tables the metric tables, Validity
--   `validity_findings` and Document `main`; a document is kept as the values that it prints. A
--   file is listed with the result of reading it, on names in the order of `sorted`. Pipeline is
--   how a report gets there: the members of its JSON by the tags of the Go structs, and the
--   extraction of the marked line by scripts/run.sh. Pipeline/Flagged and Pipeline/Unflagged run
--   from the race of the workers to the error findings. The model leaves out that `int` raises on a
--   NaN or an infinity, and a difference of two times of which one has no zone, and covers white
--   space in ASCII.
-- Exchange: the driver's worker on one side, the target's `Handler` on the other, and between them
--   client libraries that deliver plain requests, which Plain defines. Answers is what the target
--   makes of each kind of call, Arms ties the three HTTP adapters to it, Worker follows the calls
--   of a worker, and Closed is the worker whose replies are those answers. Rpc is the same for the
--   gRPC regime and both of its arms; Rounds is what the two share.
-- Samples and the Tests modules have concrete inputs and the theorems at them.
--
-- Loops are structural: a slice is a list, a count is a number, and a worker's loop runs over the
-- replies that it gets. Fuel stands in two places: the twenty digits of a printed number, enough
-- below 2 ^ 64, and the rounds of Load/Loop, where one for each 100 ms of the profile, and one
-- more, is proved to be enough.
--
-- Not modelled: running out of memory below the bound of `make`, the parsing of flags, signals,
-- sockets, the handshake but for the choice of the protocol, the pprof handlers, the contents of heap
-- profiles, the texts of log lines but for the values that the report's print, and the deployment
-- with kubectl, since they are I/O or library calls.
pub mod Prelude
pub mod Go
pub mod Weighted
pub mod Api
pub mod Scenario
pub mod Payload
pub mod ClientSet
pub mod SelfMetrics
pub mod Load
pub mod RawGrpc
pub mod Target
pub mod Driver
pub mod Comparison
pub mod Exchange
mod Samples
