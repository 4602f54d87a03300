-- ===== src/Exchange/Closed.antt =====
-- The closed loop: a worker whose replies are the target's answers to its own calls.
use poseidon_tests.Prelude.{
  refl, sym, ap, ◌∙◌, [], ◌∷◌, ◌⊎◌, All, ℕ, ◌<◌, ◌≡◌, Bool, List, none, some, Bytes, word, length,
  map,
}
use poseidon_tests.Go.Rand.{Rand}
use poseidon_tests.Payload.{Json, SizeClass}
use poseidon_tests.Payload.Pool.{Pool}
use poseidon_tests.Payload.Pool.Filled.{IsFilled}
use poseidon_tests.Api.Router.{Router}
use poseidon_tests.Scenario.{Kind, all, mix_for}
use poseidon_tests.Scenario.PathPool.{PathPool, new_path_pool}
use poseidon_tests.Scenario.Mix.{new_mix}
use poseidon_tests.Scenario.Mix.Choices.{IsValid, next_lem}
use poseidon_tests.ClientSet.{Call, Result}
use poseidon_tests.Driver.Counters.{Op}
use poseidon_tests.Driver.Race.Invariant.{starts}
use poseidon_tests.Driver.Worker.{make_call, run_worker}
use poseidon_tests.Driver.Worker.Total.{make_call_lem, mix_for-IsValid}
use poseidon_tests.ClientSet.Adapters.{Client, Http, poseidon_do, std_do}
use poseidon_tests.Exchange.{Urls, Codes, Delivers, HttpDelivers}
use poseidon_tests.Exchange.Arms.{poseidon_do-Returns, std_do-Returns}
use poseidon_tests.Exchange.Rounds.{Succeeds, errors, refusals, missing, reply_to, loop-Closes}
use poseidon_tests.Exchange.Worker.{IsMet-Succeeds, made_call-IsMet}

-- Two adapters that return the same for the calls of a list are one to a worker that issues these.
map-reply_to :
    (one other : Call → Bytes ⊎ Result) (calls : List Call)
    → All (λ (call : Call). Succeeds one call × (one call ≡ other call)) calls
    → (map (reply_to one) calls ≡ map (reply_to other) calls) × All (Succeeds one) calls
map-reply_to one other [] h = (refl, tt)
map-reply_to one other (call ∷ calls) h =
    let (same, succeed) = map-reply_to one other calls h.1 in
    (rw (h.0.1, same) refl, (h.0.0, succeed))

module _ (r : Rand) (json : Json r) (coded : Codes json) (target_seed : ℕ) (can_flush : Bool)
    (router : Router) (urls : Urls) {client : Client} {http : Http} {base : Bytes} (host : Bytes)
    (poseidon_delivers : Delivers r json target_seed can_flush router urls client)
    (http_delivers : HttpDelivers r json target_seed can_flush router urls http base)
    {cs : List SizeClass} {size paths_size : ℕ} (pool : Pool) (paths : PathPool)
    (filled : IsFilled r json cs size pool) (small : paths_size < word)
    (built : new_path_pool paths_size ≡ some paths) (id : ℕ) where
  -- `Do` of the two arms.
  abbrev poseidon_arm : Call → Bytes ⊎ Result
  poseidon_arm = poseidon_do client host none

  abbrev standard_arm : Call → Bytes ⊎ Result
  standard_arm = std_do http base

  made_call_agrees :
      (kind : Kind) (seq : ℕ)
      → (call : Call) × (make_call pool paths id seq (all kind) ≡ some call)
        × Succeeds poseidon_arm call
        × (Succeeds poseidon_arm call × (poseidon_arm call ≡ standard_arm call))
  made_call_agrees kind seq =
      let (call, made, _) = make_call_lem r json cs pool paths filled small built id kind seq in
      let met =
        made_call-IsMet r json coded target_seed can_flush router urls pool paths filled small built
          id kind seq call made in
      let one_returns =
        poseidon_do-Returns r json target_seed can_flush router urls client host
          poseidon_delivers in
      let other_returns =
        std_do-Returns r json target_seed can_flush router urls http base http_delivers in
      let succeeds =
        IsMet-Succeeds r json coded target_seed can_flush router urls poseidon_arm one_returns call
          met in
      let (plain, (events, answered, _)) = met in
      (
        call,
        made,
        succeeds,
        (
          succeeds,
          one_returns call events plain answered ∙ sym (other_returns call events plain answered),
        ),
      )

  -- The driver against the target, over HTTP: a worker with `k` permits, over a filled payload pool, a
  -- path pool that `NewPathPool` built, and bodies whose encodings can be decoded, whose replies are
  -- what `Do` of an arm makes of the target's answers to its own calls. If the libraries deliver plain
  -- requests (a GET without a body or a POST with one, of a path whose bytes a URL takes as they are),
  -- then through `poseidonHTTP.Do` and through `stdHTTP.Do` alike it issues the same `k` calls and
  -- makes the same operations: `k` counted requests, no error, and as many non-2xx replies as there
  -- are calls of the missing route; these have status 404, and all others 200.
  pub run_worker_closes :
      (seed : ℕ) (regime : Bytes) (k : ℕ)
      → (calls : List Call) × (ops : List Op) × (run_worker r pool paths id seed regime
            (map (reply_to (poseidon_do client host none)) calls)
          ≡ some (calls, ops))
        × (run_worker r pool paths id seed regime (map (reply_to (std_do http base)) calls)
            ≡ some (calls, ops))
        × (length calls ≡ k)
        × (starts ops ≡ k)
        × (errors ops ≡ 0)
        × (refusals ops ≡ missing calls)
        × All (Succeeds (poseidon_do client host none)) calls
  run_worker_closes seed regime k =
      let (calls, ops, ran, long, started, sound, refused, agree) =
        loop-Closes r poseidon_arm pool paths id (λ kind. Unit {0}) (IsValid r)
          (λ (call : Call). Succeeds poseidon_arm call × (poseidon_arm call ≡ standard_arm call))
          (λ m v. let (w, m', stepped, _, _, v') = next_lem r m v in (w.kind, m', stepped, tt, v'))
          (λ kind seq _. made_call_agrees kind seq) k (new_mix r seed id (mix_for regime)) 0
          (mix_for-IsValid r seed id regime) in
      let (same, succeed) = map-reply_to poseidon_arm standard_arm calls agree in
      let ran_one : run_worker r pool paths id seed regime (map (reply_to poseidon_arm) calls)
          ≡ some (calls, ops) =
        unfold run_worker in ran in
      (
        calls,
        ops,
        ran_one,
        ap (run_worker r pool paths id seed regime) (sym same) ∙ ran_one,
        long,
        started,
        sound,
        refused,
        succeed,
      )
