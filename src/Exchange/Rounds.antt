-- ===== src/Exchange/Rounds.antt =====
-- A worker whose replies are what an adapter returns for its own calls.
use poseidon_tests.Prelude.{
  All, ℕ, zero, suc, ◌+◌, ◌≡◌, refl, ap, ◌∙◌, true, false, List, [], ◌∷◌, ◌++◌, some, Bytes, ◌⊎◌,
  inr, arith, add64, text_eq, length, map, if◌then◌else◌, Bool-cases, inl,
}
use poseidon_tests.Go.Rand.{Rand}
use poseidon_tests.Payload.Pool.{Pool}
use poseidon_tests.Api.{route_not_found}
use poseidon_tests.Scenario.{Kind, Scenario, all}
use poseidon_tests.Scenario.PathPool.{PathPool}
use poseidon_tests.Scenario.Mix.{Mix, next}
use poseidon_tests.ClientSet.{Call, Result}
use poseidon_tests.Driver.Counters.{Op, add_err, add_non2xx, Reply, tally_answer}
use poseidon_tests.Driver.Race.Invariant.{starts}
use poseidon_tests.Driver.Worker.{make_call, prepare, loop}

-- The status that a call is meant to have: the missing route is the error path of the mix.
unfoldable pub status_for : Call → ℕ
status_for call = if text_eq call.path route_not_found then 404 else 200

-- `Do` returns a result with the status that the call is meant to have.
abbrev pub Succeeds : (call_client : Call → Bytes ⊎ Result) → Call → Type 0
Succeeds call_client call =
    (res : Result) × (call_client call ≡ inr res) × (res.status ≡ status_for call)

-- What `Do` returns for a call, while the context stands.
abbrev pub reply_to : (Call → Bytes ⊎ Result) → Call → Reply
reply_to call_client call = record { answer = call_client call; cancelled = false }

-- How many operations of a list count an error, and how many a non-2xx reply.
unfoldable pub errors : List Op → ℕ
errors [] = 0
errors (add_err ∷ os) = suc (errors os)
errors (o ∷ os) = errors os

unfoldable pub refusals : List Op → ℕ
refusals [] = 0
refusals (add_non2xx ∷ os) = suc (refusals os)
refusals (o ∷ os) = refusals os

abbrev pub is_missing : Call → ℕ
is_missing call = if text_eq call.path route_not_found then 1 else 0

-- How many calls go to the missing route.
unfoldable pub missing : List Call → ℕ
missing [] = 0
missing (call ∷ calls) = is_missing call + missing calls

tally_success :
    (sc : Scenario) (call : Call) (res : Result) (more : List Op)
    → res.status ≡ status_for call
    → let (ops, goes_on) = tally_answer sc false (inr res) in
      (goes_on ≡ true)
      × (starts (ops ++ more) ≡ suc (starts more))
      × (errors (ops ++ more) ≡ errors more)
      × (refusals (ops ++ more) ≡ is_missing call + refusals more)
unfolding tally_answer starts errors refusals status_for
tally_success sc call res more e = elim (Bool-cases (text_eq call.path route_not_found)) [
  | inl lost ↦ rw (e, lost) (refl, refl, refl, omega arith)
  | inr known ↦ rw (e, known) (refl, refl, refl, omega arith)
]

-- `Allowed` are the kinds that the mix draws, `Keeps` is what holds of the mix for that, and `P` what
-- holds of each call.
module _ (r : Rand) (call_client : Call → Bytes ⊎ Result) (pool : Pool) (paths : PathPool) (id : ℕ)
    (Allowed : Kind → Type 0) (Keeps : Mix r → Type 0) (P : Call → Type 0)
    (draws : (m : Mix r)
      → Keeps m
      → (k : Kind) × (m' : Mix r) × (next r m ≡ some (all k, m')) × Allowed k × Keeps m')
    (makes : (k : Kind) (seq : ℕ)
      → Allowed k
      → (call : Call) × (make_call pool paths id seq (all k) ≡ some call)
        × Succeeds call_client call
        × P call) where
  -- What `k` rounds from a state of the mix count.
  abbrev pub Closes : Mix r → (seq k : ℕ) → Type 0
  Closes mix seq k =
      (calls : List Call) × (ops : List Op) × (loop r pool paths id mix seq
          (map (reply_to call_client) calls)
        ≡ some (calls, ops))
      × (length calls ≡ k)
      × (starts ops ≡ k)
      × (errors ops ≡ 0)
      × (refusals ops ≡ missing calls)
      × All P calls

  pub loop-Closes : (k : ℕ) (mix : Mix r) (seq : ℕ) → Keeps mix → Closes mix seq k
  unfolding loop prepare missing starts errors refusals
  loop-Closes zero mix seq v = ([], [], refl, refl, refl, refl, refl, tt)
  loop-Closes (suc k) mix seq v =
      let (kind, mix', stepped, allowed, v') = draws mix v in
      let (call, made, (res, answered, meant), holds) = makes kind (add64 seq 1) allowed in
      let (calls, ops, rest, long, started, sound, refused, all_hold) =
        loop-Closes k mix' (add64 seq 1) v' in
      let (goes_on, one, none_failed, counted) = tally_success (all kind) call res ops meant in
      (
        call ∷ calls,
        (tally_answer (all kind) false (inr res)).0 ++ ops,
        rw (stepped, made, answered, goes_on, rest) refl,
        ap suc long,
        one ∙ ap suc started,
        none_failed ∙ sound,
        counted ∙ ap (λ n. is_missing call + n) refused,
        (holds, all_hold),
      )
