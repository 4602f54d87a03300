-- ===== src/Driver/Worker/Script.antt =====
-- The calls of a worker do not depend on the client: they follow a script.
use poseidon_tests.Prelude.{
  ℕ, zero, suc, ◌≡◌, refl, ap, ◌∙◌, Bool, true, false, List, [], ◌∷◌, ◌++◌, Option, none, some,
  ◌>>=◌, Bytes, ◌⊎◌, inl, inr, arith, if◌then◌else◌, Bool-cases, Option-cases,
}
use poseidon_tests.Go.Rand.{Rand}
use poseidon_tests.ClientSet.{Call, Result}
use poseidon_tests.Payload.Pool.{Pool}
use poseidon_tests.Scenario.{Scenario, mix_for}
use poseidon_tests.Scenario.PathPool.{PathPool}
use poseidon_tests.Scenario.Mix.{Mix, new_mix}
use poseidon_tests.Driver.Counters.{Op, Reply, tally_reply, tally_answer}
use poseidon_tests.Driver.Worker.{prepare, loop, run_worker}

-- A reply ends the loop only if it is an error of a call whose context has ended.
abbrev goes_on_after : Bool → Bytes ⊎ Result → Bool
goes_on_after true (inl e) = false
goes_on_after false (inl e) = true
goes_on_after cancelled (inr res) = true

abbrev pub goes_on : Reply → Bool
goes_on rep = goes_on_after rep.cancelled rep.answer

-- How many calls a worker issues on these replies.
unfoldable pub rounds : List Reply → ℕ
rounds [] = 0
rounds (rep ∷ reps) = suc (if goes_on rep then rounds reps else 0)

tally_answer-goes_on :
    (sc : Scenario) (b : Bool) (a : Bytes ⊎ Result) → (tally_answer sc b a).1 ≡ goes_on_after b a
unfolding tally_answer
tally_answer-goes_on sc true (inl e) = refl
tally_answer-goes_on sc false (inl e) = refl
tally_answer-goes_on sc true (inr res) = ground arith
tally_answer-goes_on sc false (inr res) = ground arith

-- The calls that a worker issued.
abbrev pub issued : Option (List Call × List Op) → Option (List Call)
issued none = none
issued (some (calls, ops)) = some calls

issued-cons :
    (m : Option (List Call × List Op)) (call : Call) (ops : List Op)
    → issued (m >>= λ (calls, more). some (call ∷ calls, ops ++ more))
      ≡ (issued m >>= λ calls. some (call ∷ calls))
issued-cons none call ops = refl
issued-cons (some (calls, more)) call ops = refl

module _ (r : Rand) (pool : Pool) (paths : PathPool) (id : ℕ) where
  -- The first `k` calls from a state of the mix, with no reply in sight.
  unfoldable pub script : Mix r → ℕ → ℕ → Option (List Call)
  script mix seq zero = some []
  script mix seq (suc k) = do
    (sc, mix, seq, call) ← prepare r pool paths id mix seq
    calls ← script mix seq k
    some (call ∷ calls)

  issued-loop :
      (mix : Mix r) (seq : ℕ) (reps : List Reply)
      → issued (loop r pool paths id mix seq reps) ≡ script mix seq (rounds reps)
  unfolding loop script rounds
  issued-loop mix seq [] = refl
  issued-loop mix seq (rep ∷ reps) = elim (Option-cases (prepare r pool paths id mix seq)) [
    | inl panics ↦ rw panics refl
    | inr ((sc, mix', seq', call), ready) ↦
        let follows = tally_answer-goes_on sc rep.cancelled rep.answer in
        let ops = (tally_reply sc rep).0 in
        rw ready (elim (Bool-cases (goes_on rep)) [
          | inl on ↦
              rw (follows, on)
                (issued-cons (loop r pool paths id mix' seq' reps) call ops
                  ∙ ap (λ calls. calls >>= λ (cs : List Call). some (call ∷ cs))
                      (issued-loop mix' seq' reps))
          | inr off ↦ rw (follows, off) refl
        ])
  ]

  -- The calls that a worker issues are the first ones of a script, as many as it makes rounds. The
  -- script is fixed by the seed, the worker, the regime's mix and the two pools: what the client
  -- answers has no influence but on the number of rounds.
  pub issued-run_worker :
      (seed : ℕ) (regime : Bytes) (reps : List Reply)
      → issued (run_worker r pool paths id seed regime reps)
        ≡ script (new_mix r seed id (mix_for regime)) 0 (rounds reps)
  unfolding run_worker
  issued-run_worker seed regime reps = issued-loop (new_mix r seed id (mix_for regime)) 0 reps
