-- ===== src/Driver/Main.antt =====
-- `main` of cmd/driver/main.go, as the sequence of what it does: from the command line to the report,
-- with every early end, those of `emit` too. `log.Fatalf` ends the process and runs no deferred call; a panic runs those
-- that stand.
pub mod Window
pub mod Aborts
mod Tests
use poseidon_tests.Prelude.{
  ℕ, zero, suc, ◌+◌, Bool, true, List, [], ◌∷◌, ◌++◌, Option, none, some, Bytes, codes,
  if◌then◌else◌, is_neg, not_pos,
}
use poseidon_tests.Go.Rand.{Rand}
use poseidon_tests.Go.Outcome.{Outcome, ok, err, panic}
use poseidon_tests.Payload.{Json}
use poseidon_tests.Payload.Pool.{Pool, new_pool}
use poseidon_tests.Scenario.PathPool.{PathPool, new_path_pool}
use poseidon_tests.ClientSet.Matrix.{Impl, parse_regime, parse_arm, new}
use poseidon_tests.ClientSet.Endpoint.{Config}

-- The part of the command line that decides what `main` does.
pub record Flags : Type 0 where
  pub regime : Bytes
  pub arm : Bytes
  pub host : Bytes
  pub tls_port : ℕ
  pub h3_port : ℕ
  pub grpc_port : ℕ
  pub workers : ℕ  -- int
  pub conns : ℕ
  pub streams : ℕ
  pub seed : ℕ
  pub pool_size : ℕ  -- int
  pub profile_dir : Bytes

pub data Action : Type 0 where
  fatal : (reason : Bytes) → Action
  panicked serve_metrics start_ticker start_sampler : Action
  start_worker : (id : ℕ) → Action
  wait_plateau read_start latch_baselines log_open wait_workers read_end : Action
  -- A heap profile is written, behind a garbage collection; or the reason why it is not is logged.
  profiled : (name : Bytes) → Action
  profile_failed : (reason : Bytes) → Action
  emitted stop_ticker close_client : Action

-- The file system, as `writeProfile` meets it: whether each step fails.
pub record Disk : Type 0 where
  pub mkdir_fails : Bytes → Bool
  pub create_fails : Bytes → Bool
  pub write_fails : Bytes → Bool

-- `%s/%s-%s-heap-%s.pprof`
unfoldable pub profile_name : (dir regime arm when : Bytes) → Bytes
profile_name dir regime arm when =
    dir
    ++ (codes "/"
        ++ (regime ++ (codes "-" ++ (arm ++ (codes "-heap-" ++ (when ++ codes ".pprof"))))))

unfoldable pub write_profile : Disk → (dir regime arm when : Bytes) → List Action
write_profile disk [] regime arm when = []
write_profile disk (c ∷ dir) regime arm when =
    let name = profile_name (c ∷ dir) regime arm when in
    if disk.mkdir_fails (c ∷ dir)
    then profile_failed (codes "profile dir") ∷ []
    else if disk.create_fails name
    then profile_failed (codes "create profile") ∷ []
    else if disk.write_fails name
    then profile_failed (codes "write heap profile") ∷ []
    else profiled name ∷ []

-- `waitUntil`, where `d` is the time left; `expires` tells whether the timer comes before the end of
-- the context.
unfoldable pub wait_until : (d : ℕ) → (expires : Bool) → Bool
wait_until d expires = if not_pos d then true else expires

-- The loop that starts the workers, from `id` on.
unfoldable pub start_workers : (left id : ℕ) → List Action
start_workers zero id = []
start_workers (suc left) id = start_worker id ∷ start_workers left (id + 1)

-- What `main` meets: the error of the client's constructor, if there is one, the disk, the time to the
-- plateau, whether the run lasts until then, and whether encoding/json refuses its report, with an
-- indent or without; it refuses a float that is no number, such as a rate of NaN.
pub record World : Type 0 where
  pub build_client : Impl → Config → Option Bytes
  pub disk : Disk
  pub to_plateau : ℕ
  pub lasts : Bool
  pub indent_fails : Bool
  pub marshal_fails : Bool

unfoldable pub config_of : Flags → Config
config_of f = record {
  host = f.host;
  tls_port = f.tls_port;
  h3_port = f.h3_port;
  grpc_port = f.grpc_port;
  conns = f.conns;
  max_streams_per_conn = f.streams;
  insecure_skip_verify = true;
}

module _ (w : World) (f : Flags) where
  -- `emit`, and the deferred calls behind it, which a fatal end leaves out.
  unfoldable pub report_end : List Action
  report_end =
      if w.indent_fails
      then fatal (codes "marshal report") ∷ []
      else if w.marshal_fails
      then fatal (codes "marshal report") ∷ []
      else emitted ∷ stop_ticker ∷ close_client ∷ []

  -- From the start of the workers to the end.
  unfoldable pub measure : (regime arm : Bytes) → List Action
  measure regime arm =
      let reached = wait_until w.to_plateau w.lasts in
      wait_plateau
      ∷ ((if reached then write_profile w.disk f.profile_dir regime arm (codes "start") else [])
          ++ (read_start
              ∷ latch_baselines
              ∷ ((if reached then log_open ∷ [] else [])
                  ++ (wait_workers
                      ∷ read_end
                      ∷ (write_profile w.disk f.profile_dir regime arm (codes "end")
                          ++ report_end)))))

  -- `wg.Add` panics on a negative number of workers.
  unfoldable pub run_workers : (regime arm : Bytes) → List Action
  run_workers regime arm =
      start_ticker
      ∷ start_sampler
      ∷ (if is_neg f.workers
          then panicked ∷ stop_ticker ∷ close_client ∷ []
          else start_workers f.workers 0 ++ measure regime arm)

  unfoldable pub with_paths : (regime arm : Bytes) → Option PathPool → List Action
  with_paths regime arm none = panicked ∷ close_client ∷ []
  with_paths regime arm (some paths) = run_workers regime arm

  unfoldable pub with_pool : {E : Type 0} → (regime arm : Bytes) → Outcome E Pool → List Action
  with_pool regime arm (ok pool) = with_paths regime arm (new_path_pool f.pool_size)
  with_pool regime arm (err e) = fatal (codes "build payload pool") ∷ []
  with_pool regime arm panic = panicked ∷ close_client ∷ []

  module _ (r : Rand) (json : Json r) where
    unfoldable pub with_client : (regime arm : Bytes) → Option Bytes → List Action
    with_client regime arm (some e) = fatal (codes "build client") ∷ []
    with_client regime arm none =
        serve_metrics ∷ with_pool regime arm (new_pool r json f.seed 0 [] f.pool_size)

    unfoldable pub with_impl : (regime arm : Bytes) → Option Impl → List Action
    with_impl regime arm none = fatal (codes "build client") ∷ []
    with_impl regime arm (some i) = with_client regime arm (w.build_client i (config_of f))

    unfoldable pub with_arm : (regime : Bytes) → Option Bytes → List Action
    with_arm regime none = fatal (codes "unknown arm") ∷ []
    with_arm regime (some arm) = with_impl regime arm (new regime arm)

    unfoldable pub with_regime : Option Bytes → List Action
    with_regime none = fatal (codes "unknown regime") ∷ []
    with_regime (some regime) = with_arm regime (parse_arm f.arm)

    unfoldable pub main : List Action
    main = with_regime (parse_regime f.regime)
