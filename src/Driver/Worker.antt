-- ===== src/Driver/Worker.antt =====
-- `runWorker`: the loop of one worker, over the replies that it gets. A reply stands for one permit
-- of the ticker and what the client answers to the call that it releases; where the list ends, `Wait`
-- returns false.
pub mod Script
pub mod Total
pub mod Arms
use poseidon_tests.Prelude.{
  ℕ, Bool, true, false, List, [], ◌∷◌, ◌++◌, Option, none, some, ◌>>=◌, Bytes, add64, if◌then◌else◌,
}
use poseidon_tests.Go.Rand.{Rand}
use poseidon_tests.ClientSet.{Call}
use poseidon_tests.Payload.Pool
use poseidon_tests.Payload.Pool.{Pool}
use poseidon_tests.Scenario.{Scenario, mix_for}
use poseidon_tests.Scenario.PathPool
use poseidon_tests.Scenario.PathPool.{PathPool}
use poseidon_tests.Scenario.Mix
use poseidon_tests.Scenario.Mix.{Mix}
use poseidon_tests.Driver.Counters.{Op, Reply, tally_reply}

-- `if sc.HasBody { call.Body = pool.For(id, seq) }`; the result is on the outside a panic.
unfoldable pub body_for : Pool → ℕ → ℕ → Bool → Option (Option Bytes)
body_for pool id seq false = some none
body_for pool id seq true = do b ← Pool.for_worker pool id seq; some (some b)

unfoldable pub make_call : Pool → PathPool → ℕ → ℕ → Scenario → Option Call
make_call pool paths id seq sc = do
  path ← PathPool.path paths sc.kind seq
  body ← body_for pool id seq sc.has_body
  some (record { scenario = sc.name; method = sc.method; path = path; body = body })

module _ (r : Rand) (pool : Pool) (paths : PathPool) (id : ℕ) where
  -- The head of a round: the next scenario, `seq++`, and the call to issue.
  unfoldable pub prepare : Mix r → ℕ → Option (Scenario × Mix r × ℕ × Call)
  prepare mix seq = do
    (sc, mix) ← Mix.next r mix
    let seq = add64 seq 1
    call ← make_call pool paths id seq sc
    some (sc, mix, seq, call)

  -- The calls issued and the operations on the counters, in order; `none` is a panic.
  unfoldable pub loop : Mix r → ℕ → List Reply → Option (List Call × List Op)
  loop mix seq [] = some ([], [])
  loop mix seq (rep ∷ reps) = do
    (sc, mix, seq, call) ← prepare mix seq
    let (ops, goes_on) = tally_reply sc rep
    let rest = loop mix seq reps
    (calls, more) ← (if goes_on then rest else some ([], []))
    some (call ∷ calls, ops ++ more)

  unfoldable pub run_worker : ℕ → Bytes → List Reply → Option (List Call × List Op)
  run_worker seed regime = loop (Mix.new_mix r seed id (mix_for regime)) 0
