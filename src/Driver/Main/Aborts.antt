-- ===== src/Driver/Main/Aborts.antt =====
-- How `main` ends.
use poseidon_tests.Prelude.{
  ◌<◌, ◌*◌, ◌≡◌, ◌||◌, codes, if◌then◌else◌, true, false, List, [], ◌∷◌, ◌++◌, none, some, Bytes,
  ◌⊎◌,
}
use poseidon_tests.Go.Rand.{Rand}
use poseidon_tests.Go.Outcome.{Outcome}
use poseidon_tests.Go.Make.{max_alloc, slice_width}
use poseidon_tests.Payload.Pool.{Pool, checked_size}
use poseidon_tests.ClientSet.Matrix.{Impl, parse_regime, parse_arm, new}
use poseidon_tests.Driver.Main.{
  Flags, World, config_of, Action, fatal, serve_metrics, start_ticker, start_sampler, stop_ticker,
  close_client, panicked, wait_plateau, read_start, latch_baselines, log_open, wait_workers,
  read_end, emitted, write_profile, wait_until, start_workers,
}

-- One fatal line, before or behind the start of the metrics server.
abbrev pub IsAborted : List Action → Type 0
IsAborted acts =
    (reason : Bytes) × ((acts ≡ fatal reason ∷ []) ⊎ (acts ≡ serve_metrics ∷ fatal reason ∷ []))

module _ (w : World) (f : Flags) where
  -- The measurement for a regime and an arm, up to where `emit` is called, and what ends `main` there.
  abbrev pub measured : (regime arm : Bytes) → (ending : List Action) → List Action
  measured regime arm ending =
      let reached = wait_until w.to_plateau w.lasts in
      serve_metrics
      ∷ start_ticker
      ∷ start_sampler
      ∷ (start_workers f.workers 0
          ++ (wait_plateau
              ∷ ((if reached
                    then write_profile w.disk f.profile_dir regime arm (codes "start")
                    else [])
                  ++ (read_start
                      ∷ latch_baselines
                      ∷ ((if reached then log_open ∷ [] else [])
                          ++ (wait_workers
                              ∷ read_end
                              ∷ (write_profile w.disk f.profile_dir regime arm (codes "end")
                                  ++ ending)))))))

  -- The command line names a cell of the matrix whose client could be built.
  abbrev pub IsBuilt : (regime arm : Bytes) → Type 0
  IsBuilt regime arm =
      (parse_regime f.regime ≡ some regime)
      × (parse_arm f.arm ≡ some arm)
      × ((i : Impl) × (new regime arm ≡ some i) × (w.build_client i (config_of f) ≡ none))

  -- The pool's slice does not fit into memory: a panic, before the workers, releases the client.
  abbrev pub IsPanicked : List Action → Type 0
  IsPanicked acts =
      (max_alloc < checked_size f.pool_size * slice_width)
      × (acts ≡ serve_metrics ∷ panicked ∷ close_client ∷ [])

  -- All of the measurement. If both encoders take the report, it is emitted, and what `main` holds is
  -- released; otherwise `main` ends with a fatal line, no report, and nothing released.
  abbrev pub IsMeasured : (regime arm : Bytes) → List Action → Type 0
  IsMeasured regime arm acts =
      ((w.indent_fails || w.marshal_fails) ≡ false)
        × (acts ≡ measured regime arm (emitted ∷ stop_ticker ∷ close_client ∷ []))
      ⊎ ((w.indent_fails || w.marshal_fails) ≡ true)
        × (acts ≡ measured regime arm (fatal (codes "marshal report") ∷ []))
