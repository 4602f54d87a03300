-- ===== src/Driver/Race/Plateau.antt =====
-- What the reported plateau counts are, for every interleaving of the workers with the latch.
use poseidon_tests.Prelude.{
  ℕ, zero, suc, replicate, inl, false, Bytes, ◌+◌, ◌%◌, ◌≤◌, ◌<◌, ◌≡◌, refl, List, [], ◌∷◌, arith,
  word, All,
}
use poseidon_tests.Weighted.Choice.{sum}
use poseidon_tests.Driver.Counters.{
  Op, plateau_requests, plateau_errors, plateau_non2xx, plateau_body_bytes, add_total, add_err,
  note_err, apply, tally_answer, zero_counters, latch_total, latch_errs, latch_non2xx, latch_body,
  Reply,
}
use poseidon_tests.Scenario.{Scenario}
use poseidon_tests.Driver.Race.{
  System, Reach, start, begun, then, answered, operated, latched, count_op, latch_at,
}
use poseidon_tests.Driver.Race.Invariant.{starts, Reach-Inv}

-- No worker has an operation left, as after `wg.Wait()`.
abbrev pub IsQuiet : System → Type 0
IsQuiet s = All (λ os. os ≡ []) s.workers

pub quiet-starts : (ws : List (List Op)) → All (λ os. os ≡ []) ws → sum starts ws ≡ 0
unfolding sum starts
quiet-starts [] q = refl
quiet-starts (w ∷ ws) q = rw q.0 (omega (arith, quiet-starts ws q.1))

-- Once the latch has made its four stores and no worker has an operation left, and while fewer than
-- 2 ^ 64 calls were counted, each reported count is the number of operations of its kind that came
-- behind its own store: no baseline is above its counter, and nothing wraps around. The body bytes are
-- exact modulo 2 ^ 64.
pub plateau_exact :
    {n : ℕ} {s : System}
    → Reach n s
    → s.stage ≡ 4
    → IsQuiet s
    → s.truth.sent < word
    → (plateau_requests s.counters + s.truth.sent_before ≡ s.truth.sent)
      × (plateau_errors s.counters + s.truth.failed_before ≡ s.truth.failed)
      × (plateau_non2xx s.counters + s.truth.refused_before ≡ s.truth.refused)
      × ((plateau_body_bytes s.counters + s.truth.received_before) % word ≡ s.truth.received % word)
unfolding plateau_requests plateau_errors plateau_non2xx plateau_body_bytes
plateau_exact {s} r done quiet few =
    let none_started = quiet-starts s.workers quiet in ground (arith, Reach-Inv r, none_started)

-- Once the latch has made its four stores and no worker has an operation left, and while fewer than
-- 2 ^ 64 calls were counted, the reported errors and non-2xx replies of the plateau exceed its reported
-- requests by no more than the number of workers.
pub plateau_bounded :
    {n : ℕ} {s : System}
    → Reach n s
    → s.stage ≡ 4
    → IsQuiet s
    → s.truth.sent < word
    → plateau_errors s.counters + plateau_non2xx s.counters ≤ plateau_requests s.counters + n
plateau_bounded {s} r done quiet few =
    let none_started = quiet-starts s.workers quiet in
    let exact = plateau_exact r done quiet few in omega (arith, exact, Reach-Inv r, none_started)

idle-quiet : (n : ℕ) → All (λ (os : List Op). os ≡ []) (replicate n [])
idle-quiet zero = tt
idle-quiet (suc n) = (refl, idle-quiet n)

-- With any positive number of workers, a call that fails while the latch is made can be reported as an
-- error of a plateau with no requests.
pub late_error :
    (n : ℕ) (sc : Scenario) (e : Bytes)
    → (s : System) × Reach (suc n) s
      × (s.stage ≡ 4)
      × IsQuiet s
      × (plateau_requests s.counters ≡ 0)
      × (plateau_errors s.counters ≡ 1)
unfolding start zero_counters tally_answer apply count_op latch_at latch_total latch_errs
    latch_non2xx latch_body plateau_requests plateau_errors
late_error n sc e =
    let others = replicate {A = List Op} n [] in
    let failing : Reply = record { answer = inl e; cancelled = false } in
    let called = then begun (answered [] others sc failing refl refl) in
    let counted = then called (operated [] others add_total _ refl refl) in
    let stored =
      then (then (then (then counted (latched refl)) (latched refl)) (latched refl))
        (latched refl) in
    let late = then stored (operated [] others add_err _ refl refl) in
    let noted = then late (operated [] others (note_err _) [] refl refl) in
    (_, noted, refl, (refl, idle-quiet n), refl, refl)
