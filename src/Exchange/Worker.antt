-- ===== src/Exchange/Worker.antt =====
-- A worker whose calls the target answers.
use poseidon_tests.Prelude.{
  ◌⊎◌, true, inl, inr, ℕ, ◌%◌, ◌<◌, ◌≡◌, refl, subst, Bool, List, ◌∷◌, ◌++◌, Option, none, some,
  Bytes, All, arith, half, word, length,
}
use poseidon_tests.Go.Rand.{Rand}
use poseidon_tests.Payload.{Json, SizeClass}
use poseidon_tests.Payload.Pool.{Pool}
use poseidon_tests.Payload.Pool.Filled.{IsFilled, for_worker_lem}
use poseidon_tests.Api.{route_echo, route_ingest, route_stream, route_not_found}
use poseidon_tests.Api.Router.{Router}
use poseidon_tests.Api.Stream.{stream_handler-stream_text}
use poseidon_tests.Scenario.{Kind, echo, fetch, ingest, stream, not_found, all}
use poseidon_tests.Scenario.PathPool.{PathPool, checked_size, new_path_pool, path}
use poseidon_tests.Scenario.PathPool.Variants.{
  built-AreServed, checked_size_range, fetch_text, stream_text,
}
use poseidon_tests.ClientSet.{Call, Result}
use poseidon_tests.Driver.Counters.{Op, Reply}
use poseidon_tests.Driver.Worker.{make_call, body_for, run_worker}
use poseidon_tests.Driver.Worker.Script.{rounds}
use poseidon_tests.Driver.Worker.Total.{run_worker-All}
use poseidon_tests.Exchange.{Urls, Codes, Returns}
use poseidon_tests.Exchange.Plain.{
  IsPlain, all_plain, is_plain_path, fetch_text-plain, stream_text-plain,
}
use poseidon_tests.Exchange.Rounds.{status_for, Succeeds}
use poseidon_tests.Exchange.Answers.{
  IsAnswered, echo_answer, ingest_answer, missing_answer, stream_answer, fetch_answer,
}

abbrev call_of : Kind → (target : Bytes) → Option Bytes → Call
call_of k target body = record {
  scenario = (all k).name;
  method = (all k).method;
  path = target;
  body = body;
}

module _ (r : Rand) (json : Json r) (coded : Codes json) (target_seed : ℕ) (can_flush : Bool)
    (router : Router) (urls : Urls) where
  -- The call is a plain request, and the target answers it with the status that it is meant to have.
  abbrev pub IsMet : Call → Type 0
  IsMet call =
      IsPlain call.method call.path call.body
      × IsAnswered r json target_seed can_flush router urls call.method call.path call.body
          (status_for call)

  pub IsMet-Succeeds :
      (call_client : Call → Bytes ⊎ Result)
      → Returns r json target_seed can_flush router urls call_client
      → (call : Call) → IsMet call
      → Succeeds call_client call
  IsMet-Succeeds call_client returns call (plain, (events, answered, same)) =
      (_, returns call events plain answered, same)

  module _ {cs : List SizeClass} {size paths_size : ℕ} (pool : Pool) (paths : PathPool)
      (filled : IsFilled r json cs size pool) (small : paths_size < word)
      (built : new_path_pool paths_size ≡ some paths) (id : ℕ) where
    below : (seq : ℕ) → seq % checked_size paths_size < half
    below seq = grind (arith, checked_size_range paths_size small)

    paths_found :
        (seq : ℕ)
        → (i : ℕ) × (i < half)
          × (path paths fetch seq ≡ some (fetch_text i))
          × (path paths stream seq ≡ some (stream_text i))
    paths_found seq =
        let (fetched, streamed) = built-AreServed paths_size small built seq in
        (seq % checked_size paths_size, below seq, fetched, streamed)

    same_call :
        {m : Option Call} {call : Call} (call' : Call)
        → m ≡ some call
        → m ≡ some call'
        → IsMet call'
        → IsMet call
    same_call {call = call} call' e e' h = let same : call' ≡ call = cc in subst IsMet same h

    pub made_call-IsMet :
        (k : Kind) (seq : ℕ) (call : Call)
        → make_call pool paths id seq (all k) ≡ some call
        → IsMet call
    unfolding make_call body_for all path status_for
    made_call-IsMet echo seq call e =
        let (b, held, (v, _, marshalled)) = for_worker_lem r json pool filled id seq in
        let (v', decoded) = coded.decodes v b marshalled in
        same_call (call_of echo route_echo (some b)) e (rw held refl) (
          (inr (refl, (b, refl)), unfold is_plain_path all_plain in refl),
          echo_answer r json target_seed can_flush router urls b v' decoded,
        )
    made_call-IsMet ingest seq call e =
        let (b, held, _) = for_worker_lem r json pool filled id seq in
        same_call (call_of ingest route_ingest (some b)) e (rw held refl) (
          (inr (refl, (b, refl)), unfold is_plain_path all_plain in refl),
          ingest_answer r json target_seed can_flush router urls b,
        )
    made_call-IsMet fetch seq call e =
        let (i, bounded, found, _) = paths_found seq in
        same_call (call_of fetch (fetch_text i) none) e (rw found refl) (
          (inl (refl, refl), fetch_text-plain i),
          fetch_answer r json target_seed can_flush router urls coded.encodes i bounded,
        )
    made_call-IsMet stream seq call e =
        let (i, _, _, found) = paths_found seq in
        let (query, same, _, _) = stream_handler-stream_text can_flush i in
        same_call (call_of stream (route_stream ++ (b'?' ∷ query)) none) e (rw (found, same) refl) (
          (inl (refl, refl), subst (λ p. is_plain_path p ≡ true) same (stream_text-plain i)),
          stream_answer r json target_seed can_flush router urls query,
        )
    made_call-IsMet not_found seq call e =
        same_call (call_of not_found route_not_found none) e refl (
          (inl (refl, refl), unfold is_plain_path all_plain in refl),
          missing_answer r json target_seed can_flush router urls,
        )

    -- Every call that a worker issues is answered with the status that it is meant to have, whatever the
    -- replies that it got.
    pub run_worker-IsMet :
        (seed : ℕ) (regime : Bytes) (reps : List Reply)
        → (calls : List Call) × (ops : List Op) × (run_worker r pool paths id seed regime reps
            ≡ some (calls, ops))
          × (length calls ≡ rounds reps)
          × All IsMet calls
    run_worker-IsMet =
        run_worker-All r json cs pool paths filled small built id IsMet made_call-IsMet
