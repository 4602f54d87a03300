-- ===== src/Driver/Worker/Total.antt =====
-- A worker does not panic, and every call that it issues is well formed.
use poseidon_tests.Prelude.{
  ℕ, zero, suc, ◌<◌, ◌≡◌, refl, ap, ◌∙◌, subst, true, false, List, [], ◌∷◌, Option, none, some,
  Bytes, codes, ◌⊎◌, inl, inr, arith, add64, word, Bool-cases, length, All, text_eq,
}
use poseidon_tests.Go.Rand.{Rand}
use poseidon_tests.Weighted.Choice.{sum}
use poseidon_tests.ClientSet.{Call}
use poseidon_tests.Payload.{Json, SizeClass}
use poseidon_tests.Payload.Pool.{Pool}
use poseidon_tests.Payload.Pool.Filled.{IsFilled, IsEntry, for_worker_lem}
use poseidon_tests.Scenario.{
  Kind, echo, fetch, ingest, stream, not_found, Scenario, all, mix_for, default_mix, grpc_mix,
}
use poseidon_tests.Scenario.PathPool.{PathPool, new_path_pool, path}
use poseidon_tests.Scenario.PathPool.Variants.{built-AreServed}
use poseidon_tests.Scenario.Mix.{Mix, new_mix}
use poseidon_tests.Scenario.Mix.Choices.{IsValid, new_mix-IsValid, next_lem}
use poseidon_tests.Driver.Counters.{Op, Reply}
use poseidon_tests.Driver.Worker.{body_for, make_call, prepare, run_worker}
use poseidon_tests.Driver.Worker.Script.{rounds, issued, script, issued-run_worker}

issued-some :
    (m : Option (List Call × List Op)) {calls : List Call}
    → issued m ≡ some calls
    → (ops : List Op) × (m ≡ some (calls, ops))
issued-some none h = cc
issued-some (some (cs, ops)) {calls} h = let same : cs ≡ calls = cc in (ops, rw same)

pub mix_for-IsValid :
    (r : Rand) (seed worker : ℕ) (regime : Bytes)
    → IsValid r (new_mix r seed worker (mix_for regime))
unfolding mix_for sum
mix_for-IsValid r seed worker regime = elim (Bool-cases (text_eq regime (codes "grpc"))) [
  | inl grpc ↦ rw grpc (new_mix-IsValid r seed worker grpc_mix (omega arith) (omega arith))
  | inr http ↦ rw http (new_mix-IsValid r seed worker default_mix (omega arith) (omega arith))
]

module _ (r : Rand) (json : Json r) (cs : List SizeClass) where
  -- A POST carries an entry of the payload pool, and a GET carries no body.
  abbrev pub CallIsValid : Call → Type 0
  CallIsValid call =
      (call.method ≡ codes "POST")
        × ((b : Bytes) × (i : ℕ) × (call.body ≡ some b) × IsEntry r json cs i b)
      ⊎ (call.method ≡ codes "GET") × (call.body ≡ none)

  module _ {size paths_size : ℕ} (pool : Pool) (paths : PathPool)
      (filled : IsFilled r json cs size pool) (small : paths_size < word)
      (built : new_path_pool paths_size ≡ some paths) (id : ℕ) where
    path_some : (k : Kind) (seq : ℕ) → (p : Bytes) × (path paths k seq ≡ some p)
    path_some fetch seq = (_, (built-AreServed paths_size small built seq).0)
    path_some stream seq = (_, (built-AreServed paths_size small built seq).1)
    path_some echo seq = ((all echo).path, unfold path in refl)
    path_some ingest seq = ((all ingest).path, unfold path in refl)
    path_some not_found seq = ((all not_found).path, unfold path in refl)

    abbrev pub Makes : ℕ → Scenario → Type 0
    Makes seq sc = (call : Call) × (make_call pool paths id seq sc ≡ some call) × CallIsValid call

    post_call :
        (sc : Scenario) (seq : ℕ) → sc.has_body ≡ true → sc.method ≡ codes "POST" → Makes seq sc
    unfolding make_call body_for
    post_call sc seq has_body method =
        let (p, found) = path_some sc.kind seq in
        let (b, held, entry) = for_worker_lem r json pool filled id seq in
        (
          record { scenario = sc.name; method = sc.method; path = p; body = some b },
          rw (found, has_body, held) refl,
          inl (method, (b, _, refl, entry)),
        )

    get_call :
        (sc : Scenario) (seq : ℕ) → sc.has_body ≡ false → sc.method ≡ codes "GET" → Makes seq sc
    unfolding make_call body_for
    get_call sc seq has_body method =
        let (p, found) = path_some sc.kind seq in
        (
          record { scenario = sc.name; method = sc.method; path = p; body = none },
          rw (found, has_body) refl,
          inr (method, refl),
        )

    pub make_call_lem : (k : Kind) (seq : ℕ) → Makes seq (all k)
    unfolding all
    make_call_lem echo seq = post_call (all echo) seq refl refl
    make_call_lem fetch seq = get_call (all fetch) seq refl refl
    make_call_lem ingest seq = post_call (all ingest) seq refl refl
    make_call_lem stream seq = get_call (all stream) seq refl refl
    make_call_lem not_found seq = get_call (all not_found) seq refl refl

    -- What holds of every call that can be made holds of the calls that are issued.
    module _ (P : Call → Type 0)
        (holds : (k : Kind) (seq : ℕ) (call : Call)
          → make_call pool paths id seq (all k) ≡ some call
          → P call) where
      script-All :
          (k : ℕ) (mix : Mix r) (seq : ℕ)
          → IsValid r mix
          → (calls : List Call) × (script r pool paths id mix seq k ≡ some calls)
            × (length calls ≡ k)
            × All P calls
      unfolding script prepare
      script-All zero mix seq v = ([], refl, refl, tt)
      script-All (suc k) mix seq v =
          let (w, mix', stepped, _, _, v') = next_lem r mix v in
          let (call, made, _) = make_call_lem w.kind (add64 seq 1) in
          let (calls, rest, long, all_hold) = script-All k mix' (add64 seq 1) v' in
          (
            call ∷ calls,
            rw (stepped, made, rest) refl,
            ap suc long,
            (holds w.kind (add64 seq 1) call made, all_hold),
          )

      pub run_worker-All :
          (seed : ℕ) (regime : Bytes) (reps : List Reply)
          → (calls : List Call) × (ops : List Op) × (run_worker r pool paths id seed regime reps
              ≡ some (calls, ops))
            × (length calls ≡ rounds reps)
            × All P calls
      run_worker-All seed regime reps =
          let mix = new_mix r seed id (mix_for regime) in
          let (calls, scripted, long, all_hold) =
            script-All (rounds reps) mix 0 (mix_for-IsValid r seed id regime) in
          let (ops, ran) =
            issued-some (run_worker r pool paths id seed regime reps)
              (issued-run_worker r pool paths id seed regime reps ∙ scripted) in
          (calls, ops, ran, long, all_hold)

    made_call-CallIsValid :
        (k : Kind) (seq : ℕ) (call : Call)
        → make_call pool paths id seq (all k) ≡ some call
        → CallIsValid call
    made_call-CallIsValid k seq call e =
        let (made, found, valid) = make_call_lem k seq in
        let same : made ≡ call = cc in subst CallIsValid same valid

    -- Over a filled payload pool and a path pool that `NewPathPool` built, a worker of any regime does
    -- not panic, whatever the replies. It issues one call for each round, and each call is a POST with
    -- an entry of the payload pool or a GET without a body.
    pub run_worker_total :
        (seed : ℕ) (regime : Bytes) (reps : List Reply)
        → (calls : List Call) × (ops : List Op) × (run_worker r pool paths id seed regime reps
            ≡ some (calls, ops))
          × (length calls ≡ rounds reps)
          × All CallIsValid calls
    run_worker_total = run_worker-All CallIsValid made_call-CallIsValid
