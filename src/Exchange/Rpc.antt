-- ===== src/Exchange/Rpc.antt =====
-- The closed loop of the gRPC regime: `poseidonGRPC.Do` or `grpcGo.Do` at one end, the Echo handler of
-- the target at the other.
use poseidon_tests.Prelude.{
  ℕ, ◌≡◌, refl, ◌∙◌, List, [], ◌∷◌, some, Bytes, codes, ◌⊎◌, inr, arith, All, length, map,
}
use poseidon_tests.Go.Rand.{Rand}
use poseidon_tests.Weighted.Choice.{sum}
use poseidon_tests.Payload.{Body, Json, SizeClass}
use poseidon_tests.Payload.Pool.{Pool}
use poseidon_tests.Payload.Pool.Filled.{IsFilled, for_worker_lem}
use poseidon_tests.Api.{route_echo}
use poseidon_tests.Api.Handlers.{echo_body}
use poseidon_tests.RawGrpc.{full_method_echo, serve_unary, serve_unary_lem}
use poseidon_tests.Target.{echo_rpc, echo_decoded, or_text}
use poseidon_tests.Scenario.{echo, mix_for, all, grpc_mix}
use poseidon_tests.Scenario.PathPool.{PathPool, path}
use poseidon_tests.Scenario.Mix.{new_mix}
use poseidon_tests.Scenario.Mix.Choices.{IsValid, new_mix-IsValid}
use poseidon_tests.Scenario.Mix.Grpc.{next-grpc}
use poseidon_tests.ClientSet.{Call, Result}
use poseidon_tests.ClientSet.Grpc.{poseidon_grpc_do, grpc_result, message_of}
use poseidon_tests.Driver.Counters.{Op}
use poseidon_tests.Driver.Race.Invariant.{starts}
use poseidon_tests.Driver.Worker.{make_call, body_for, run_worker}
use poseidon_tests.Exchange.{Codes}
use poseidon_tests.Exchange.Rounds.{
  status_for, Succeeds, errors, refusals, missing, reply_to, loop-Closes,
}

missing-zero :
    (calls : List Call) → All (λ (call : Call). call.path ≡ route_echo) calls → missing calls ≡ 0
unfolding missing
missing-zero [] h = refl
missing-zero (call ∷ calls) h = rw (h.0, missing-zero calls h.1) refl

module _ (r : Rand) (json : Json r) (coded : Codes json) (text : json.Error → Bytes)
    (unary : Bytes → Bytes → Bytes ⊎ Bytes)
    (served : (msg : Bytes) → unary full_method_echo msg ≡ serve_unary (echo_rpc r json text) msg)
    (call_client : Call → Bytes ⊎ Result)
    (same : (call : Call) → call_client call ≡ poseidon_grpc_do unary call) {cs : List SizeClass}
    {size : ℕ} (pool : Pool) (paths : PathPool) (filled : IsFilled r json cs size pool)
    (id : ℕ) where
  abbrev echo_call : Bytes → Call
  echo_call b = record {
    scenario = codes "echo";
    method = codes "POST";
    path = route_echo;
    body = some b;
  }

  echo_call-Succeeds :
      (b : Bytes) → ((v : Body r) × (json.marshal v ≡ inr b)) → Succeeds call_client (echo_call b)
  unfolding poseidon_grpc_do grpc_result message_of echo_rpc echo_decoded or_text status_for
  echo_call-Succeeds b (v, marshalled) =
      let (v', read) = coded.unmarshals v b marshalled in
      let (out, written) = coded.encodes (echo_body r json v') in
      let replied : unary full_method_echo b ≡ inr out =
        served b ∙ serve_unary_lem (echo_rpc r json text) b ∙ rw (read, written) refl in
      (record { status = 200; body_len = length out }, same (echo_call b) ∙ rw replied refl, refl)

  makes_echo :
      (seq : ℕ)
      → (call : Call) × (make_call pool paths id seq (all echo) ≡ some call)
        × Succeeds call_client call
        × (call.path ≡ route_echo)
  unfolding make_call body_for all path
  makes_echo seq =
      let (b, held, (v, _, marshalled)) = for_worker_lem r json pool filled id seq in
      (echo_call b, rw held refl, echo_call-Succeeds b (v, marshalled), refl)

  -- The gRPC regime in a closed loop: over a filled payload pool and bodies whose encodings can be
  -- decoded, where the library carries the messages between the client and the method handler, take a
  -- worker with `k` permits whose adapter returns what `poseidonGRPC.Do` returns, and whose replies are
  -- the target's answers to its own calls. It issues `k` calls, all of them to Echo, and counts `k`
  -- requests, no error and no non-2xx reply.
  pub run_worker_closes_rpc :
      (seed k : ℕ)
      → (calls : List Call) × (ops : List Op) × (run_worker r pool paths id seed
            (codes "grpc")
            (map (reply_to call_client) calls)
          ≡ some (calls, ops))
        × (length calls ≡ k)
        × (starts ops ≡ k)
        × (errors ops ≡ 0)
        × (refusals ops ≡ 0)
        × All (λ (call : Call). call.path ≡ route_echo) calls
  unfolding run_worker mix_for sum new_mix
  run_worker_closes_rpc seed k =
      let (calls, ops, ran, long, started, sound, refused, echoes) =
        loop-Closes r call_client pool paths id (λ kind. kind ≡ echo)
          (λ m. IsValid r m × (m.weights ≡ grpc_mix)) (λ (call : Call). call.path ≡ route_echo)
          (λ m v.
            let (m', stepped, v', kept) = next-grpc r m v.0 v.1 in
            (echo, m', stepped, refl, (v', kept)))
          (λ kind seq at_echo. rw at_echo (makes_echo seq)) k (new_mix r seed id grpc_mix) 0
          (new_mix-IsValid r seed id grpc_mix (omega arith) (omega arith), refl) in
      (calls, ops, ran, long, started, sound, refused ∙ missing-zero calls echoes, echoes)
