-- ===== src/Driver/Race/Clean.antt =====
-- Runs in which no call fails.
use poseidon_tests.Prelude.{
  ℕ, zero, suc, ◌≡◌, refl, sym, subst, Bool, true, false, List, [], ◌∷◌, ◌++◌, none, arith, All,
  replicate, ◌⊎◌, inl, inr, Bytes, Bool-cases,
}
use poseidon_tests.ClientSet.{Result}
use poseidon_tests.Scenario.{Scenario}
use poseidon_tests.Driver.Counters.{
  zero_counters, Op, add_total, add_err, add_non2xx, note_err, add_body, apply, tally_answer,
  tally_reply, latch_total, latch_errs, latch_non2xx, latch_body, Reply, is_non2xx, plateau_errors,
}
use poseidon_tests.Driver.Race.{
  System, count_op, latch_at, answered, operated, latched, start, Reach, begun, then,
}

-- The call was answered, or it failed when the run had ended.
abbrev pub IsNoFailure : Reply → Type 0
IsNoFailure rep = ((res : Result) × (rep.answer ≡ inr res)) ⊎ (rep.cancelled ≡ true)

-- No call of the run failed.
unfoldable pub NoFailures : {n : ℕ} {s : System} → Reach n s → Type 0
NoFailures begun = Unit
NoFailures (then r (answered xs ys sc rep e e')) = IsNoFailure rep × NoFailures r
NoFailures (then r (operated xs ys o os e e')) = NoFailures r
NoFailures (then r (latched e)) = NoFailures r

abbrev IsFine : Op → Type 0
IsFine add_err = ⊥
IsFine (note_err e) = ⊥
IsFine _ = Unit

record IsClean (s : System) : Type 0 where
  fine : All (All IsFine) s.workers
  no_errs : s.counters.errs ≡ 0
  none_latched : s.counters.plateau_start_errs ≡ 0
  no_sample : s.counters.first_err ≡ none

tally_answer-IsFine :
    (sc : Scenario) (cancelled : Bool) (answer : Bytes ⊎ Result)
    → ((res : Result) × (answer ≡ inr res)) ⊎ (cancelled ≡ true)
    → All IsFine (tally_answer sc cancelled answer).0
unfolding tally_answer
tally_answer-IsFine sc true (inl e) h = (tt, tt)
tally_answer-IsFine sc false (inl e) (inl (res, h)) = cc
tally_answer-IsFine sc false (inl e) (inr h) = cc
tally_answer-IsFine sc cancelled (inr res) h = elim (Bool-cases (is_non2xx res.status)) [
  | inl refused ↦ rw refused (tt, (tt, (tt, tt)))
  | inr plain ↦ rw plain (tt, (tt, tt))
]

exchange :
    (xs ys : List (List Op)) (p q : List Op)
    → (All IsFine p → All IsFine q)
    → All (All IsFine) (xs ++ (p ∷ ys))
    → All (All IsFine) (xs ++ (q ∷ ys))
exchange [] ys p q f h = (f h.0, h.1)
exchange (x ∷ xs) ys p q f h = (h.0, exchange xs ys p q f h.1)

here-IsFine :
    (xs ys : List (List Op)) (p : List Op) → All (All IsFine) (xs ++ (p ∷ ys)) → All IsFine p
here-IsFine [] ys p h = h.0
here-IsFine (x ∷ xs) ys p h = here-IsFine xs ys p h.1

idle-IsFine : (n : ℕ) → All (All IsFine) (replicate n [])
idle-IsFine zero = tt
idle-IsFine (suc n) = (tt, idle-IsFine n)

latch_at-IsClean : (stage : ℕ) (s : System) → IsClean s → IsClean (latch_at stage s)
unfolding latch_at latch_total latch_errs latch_non2xx latch_body
latch_at-IsClean zero s c = ground arith
latch_at-IsClean (suc zero) s c = ground arith
latch_at-IsClean (suc (suc zero)) s c = ground arith
latch_at-IsClean (suc (suc (suc zero))) s c = ground arith
latch_at-IsClean (suc (suc (suc (suc n)))) s c = c

apply-IsClean :
    (o : Op) (s : System) (ws : List (List Op))
    → IsFine o
    → All (All IsFine) ws
    → IsClean s
    → IsClean (record s { counters = apply o s.counters; workers = ws; truth = count_op o s.truth })
unfolding apply count_op
apply-IsClean add_total s ws f h c = record {
  fine = h;
  no_errs = c.no_errs;
  none_latched = c.none_latched;
  no_sample = c.no_sample;
}
apply-IsClean add_err s ws f h c = absurd f
apply-IsClean add_non2xx s ws f h c = record {
  fine = h;
  no_errs = c.no_errs;
  none_latched = c.none_latched;
  no_sample = c.no_sample;
}
apply-IsClean (note_err e) s ws f h c = absurd f
apply-IsClean (add_body n) s ws f h c = record {
  fine = h;
  no_errs = c.no_errs;
  none_latched = c.none_latched;
  no_sample = c.no_sample;
}

Reach-IsClean : {n : ℕ} {s : System} (r : Reach n s) → NoFailures r → IsClean s
unfolding NoFailures start zero_counters
Reach-IsClean {n} begun none_failed = record {
  fine = idle-IsFine n;
  no_errs = refl;
  none_latched = refl;
  no_sample = refl;
}
Reach-IsClean (then {s} r (answered xs ys sc rep e e')) none_failed =
    let c = Reach-IsClean r none_failed.1 in
    let told = tally_answer-IsFine sc rep.cancelled rep.answer none_failed.0 in
    subst IsClean (sym e') (record {
      fine =
          exchange xs ys [] (tally_reply sc rep).0 (λ _. told) (subst (All (All IsFine)) e c.fine);
      no_errs = c.no_errs;
      none_latched = c.none_latched;
      no_sample = c.no_sample;
    })
Reach-IsClean (then {s} r (operated xs ys o os e e')) none_failed =
    let c = Reach-IsClean r none_failed in
    let fine = subst (All (All IsFine)) e c.fine in
    subst IsClean (sym e') (
      apply-IsClean o s (xs ++ (os ∷ ys)) (here-IsFine xs ys (o ∷ os) fine).0
        (exchange xs ys (o ∷ os) os (λ h. h.1) fine) c)
Reach-IsClean (then {s} r (latched e)) none_failed =
    subst IsClean (sym e) (latch_at-IsClean s.stage s (Reach-IsClean r none_failed))

-- A run in which every call is answered, or fails only behind the end of the run, reports no error and
-- no sample of one, in every interleaving and at any moment.
pub clean_run :
    {n : ℕ} {s : System} (r : Reach n s)
    → NoFailures r
    → (plateau_errors s.counters ≡ 0) × (s.counters.first_err ≡ none)
unfolding plateau_errors
clean_run r none_failed =
    let c = Reach-IsClean r none_failed in (ground (arith, c.no_errs, c.none_latched), c.no_sample)
