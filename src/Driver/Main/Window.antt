-- ===== src/Driver/Main/Window.antt =====
-- What `main` does between its two snapshots.
use poseidon_tests.Prelude.{
  Option, none, some, ℕ, zero, suc, ◌+◌, ◌≡◌, refl, ◌∙◌, Bool, true, false, List, [], ◌∷◌, ◌++◌,
  Bytes, codes, ◌⊎◌, inl, inr, if◌then◌else◌, is_neg,
}
use poseidon_tests.Go.Rand.{Rand}
use poseidon_tests.Go.Outcome.{Outcome, ok, err, panic}
use poseidon_tests.Payload.{Json}
use poseidon_tests.Payload.Pool.{Pool, new_pool}
use poseidon_tests.Scenario.PathPool.{PathPool, new_path_pool}
use poseidon_tests.ClientSet.Matrix.{Impl, parse_regime, parse_arm, new}
use poseidon_tests.Driver.Main.{
  serve_metrics, config_of, with_paths, with_pool, with_client, with_impl, with_arm, with_regime,
  main, Flags, Disk, World, Action, read_start, latch_baselines, log_open, wait_workers, read_end,
  emitted, start_workers, write_profile, profile_name, wait_until, measure, run_workers,
}

-- The actions before the snapshot of the end.
unfoldable pub until_end : List Action → List Action
until_end [] = []
until_end (read_end ∷ acts) = []
until_end (a ∷ acts) = a ∷ until_end acts

-- The actions between the snapshot of the start and that of the end.
unfoldable pub window : List Action → List Action
window [] = []
window (read_start ∷ acts) = until_end acts
window (a ∷ acts) = window acts

-- Whether a report is emitted.
unfoldable pub reported : List Action → Bool
reported [] = false
reported (emitted ∷ acts) = true
reported (a ∷ acts) = reported acts

window-start_workers :
    (left id : ℕ) (acts : List Action) → window (start_workers left id ++ acts) ≡ window acts
unfolding window start_workers
window-start_workers zero id acts = refl
window-start_workers (suc left) id acts = window-start_workers left (id + 1) acts

window-if :
    (b : Bool) (xs ys acts : List Action)
    → window (xs ++ acts) ≡ window acts
    → window (ys ++ acts) ≡ window acts
    → window ((if b then xs else ys) ++ acts) ≡ window acts
window-if true xs ys acts h h' = h
window-if false xs ys acts h h' = h'

window-write_profile :
    (d : Disk) (dir regime arm when : Bytes) (acts : List Action)
    → window (write_profile d dir regime arm when ++ acts) ≡ window acts
unfolding window write_profile
window-write_profile d [] regime arm when acts = refl
window-write_profile d (c ∷ dir) regime arm when acts =
    let name = profile_name (c ∷ dir) regime arm when in
    window-if (d.mkdir_fails (c ∷ dir)) _ _ acts refl (
      window-if (d.create_fails name) _ _ acts refl
        (window-if (d.write_fails name) _ _ acts refl refl))

-- What the window holds once it is opened: the baselines, the log line if the plateau was reached,
-- and the wait for the workers.
abbrev pub opened : (reached : Bool) → List Action
opened reached = latch_baselines ∷ ((if reached then log_open ∷ [] else []) ++ (wait_workers ∷ []))

window-snapshots :
    (reached : Bool) (before after : List Action)
    → ((acts : List Action) → window (before ++ acts) ≡ window acts)
    → window (
        (if reached then before else [])
        ++ (read_start
            ∷ latch_baselines
            ∷ ((if reached then log_open ∷ [] else []) ++ (wait_workers ∷ read_end ∷ after))))
      ≡ opened reached
unfolding window until_end
window-snapshots true before after skip = skip _
window-snapshots false before after skip = refl

module _ (w : World) (f : Flags) (regime arm : Bytes) where
  -- There is no report, or nothing but what `opened` holds lies between the two snapshots.
  abbrev pub IsClosed : List Action → Type 0
  IsClosed acts = (reported acts ≡ false) ⊎ (window acts ≡ opened (wait_until w.to_plateau w.lasts))

  run-IsClosed :
      (negative : Bool) → is_neg f.workers ≡ negative → IsClosed (run_workers w f regime arm)
  unfolding window reported run_workers measure
  run-IsClosed true e = rw e (inl refl)
  run-IsClosed false e = inr (rw e (window-start_workers f.workers 0 _ ∙ window-measure))
    where
      window-measure : window (measure w f regime arm) ≡ opened (wait_until w.to_plateau w.lasts)
      window-measure =
          window-snapshots (wait_until w.to_plateau w.lasts)
            (write_profile w.disk f.profile_dir regime arm (codes "start")) _
            (window-write_profile w.disk f.profile_dir regime arm (codes "start"))

  paths-IsClosed : (built : Option PathPool) → IsClosed (with_paths w f regime arm built)
  unfolding window reported with_paths
  paths-IsClosed none = inl refl
  paths-IsClosed (some paths) = run-IsClosed _ refl

  pool-IsClosed :
      {E : Type 0} (built : Outcome E Pool)
      → IsClosed (serve_metrics ∷ with_pool w f regime arm built)
  unfolding window reported with_pool
  pool-IsClosed (ok pool) = paths-IsClosed (new_path_pool f.pool_size)
  pool-IsClosed (err e) = inl refl
  pool-IsClosed panic = inl refl

module _ (w : World) (f : Flags) (r : Rand) (json : Json r) where
  client-IsClosed :
      (regime arm : Bytes) (built : Option Bytes)
      → IsClosed w f regime arm (with_client w f r json regime arm built)
  unfolding window reported with_client
  client-IsClosed regime arm none =
      pool-IsClosed w f regime arm (new_pool r json f.seed 0 [] f.pool_size)
  client-IsClosed regime arm (some e) = inl refl

  impl-IsClosed :
      (regime arm : Bytes) (chosen : Option Impl)
      → IsClosed w f regime arm (with_impl w f r json regime arm chosen)
  unfolding window reported with_impl
  impl-IsClosed regime arm none = inl refl
  impl-IsClosed regime arm (some i) = client-IsClosed regime arm (w.build_client i (config_of f))

  arm-IsClosed :
      (regime : Bytes) (parsed : Option Bytes)
      → IsClosed w f regime [] (with_arm w f r json regime parsed)
  unfolding window reported with_arm
  arm-IsClosed regime none = inl refl
  arm-IsClosed regime (some arm) = impl-IsClosed regime arm (new regime arm)

  regime-IsClosed : (parsed : Option Bytes) → IsClosed w f [] [] (with_regime w f r json parsed)
  unfolding window reported with_regime
  regime-IsClosed none = inl refl
  regime-IsClosed (some regime) = arm-IsClosed regime (parse_arm f.arm)

  -- Whatever the command line and the machine do, `main` either emits no report, or the baselines, the
  -- log line of a plateau that was reached, and the wait for the workers are all that lies between its
  -- two snapshots: both heap profiles, with the collections that they force, are outside of the
  -- measurement.
  pub window-main :
      (reported (main w f r json) ≡ false)
      ⊎ (window (main w f r json) ≡ opened (wait_until w.to_plateau w.lasts))
  unfolding main
  window-main = regime-IsClosed (parse_regime f.regime)
