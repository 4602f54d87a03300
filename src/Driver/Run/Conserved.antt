-- ===== src/Driver/Run/Conserved.antt =====
-- A run seen from its two parts, and what ties their numbers together.
use poseidon_tests.Prelude.{
  ◌≤◌, ◌<◌, word, ℕ, zero, suc, ◌+◌, ◌≡◌, refl, sym, ap, subst, List, [], ◌∷◌, ◌++◌, arith,
}
use poseidon_tests.Go.Floats.{Floats}
use poseidon_tests.Weighted.Choice.{sum}
use poseidon_tests.Load.{Profile}
use poseidon_tests.Load.Ticker.{Ticker, new_ticker, take, Steps}
use poseidon_tests.Load.Ticker
use poseidon_tests.Driver.Counters.{
  plateau_requests, Op, add_total, add_err, add_non2xx, note_err, add_body, tally_reply,
}
use poseidon_tests.Load.Ticker.Pacing.{run_paced}
use poseidon_tests.Driver.Race.Plateau.{IsQuiet, quiet-starts, plateau_exact}
use poseidon_tests.Driver.Race.{System, count_op, latch_at, start}
use poseidon_tests.Driver.Race
use poseidon_tests.Driver.Race.Invariant.{starts, sum-append, tally_answer-charge}
use poseidon_tests.Driver.Run.{
  Run, begin_run, Step, paced, called, replied, counted, latched, Reach, begun, then,
}

idle-starts : (n : ℕ) → sum starts (start n).workers ≡ 0
unfolding start sum starts
idle-starts zero = refl
idle-starts (suc n) = omega (arith, idle-starts n)

starts-nil : starts [] ≡ 0
unfolding starts
starts-nil = refl

latch_at-same :
    (k : ℕ) (s : System)
    → ((latch_at k s).truth.sent ≡ s.truth.sent) × ((latch_at k s).workers ≡ s.workers)
unfolding latch_at
latch_at-same zero s = (refl, refl)
latch_at-same (suc zero) s = (refl, refl)
latch_at-same (suc (suc zero)) s = (refl, refl)
latch_at-same (suc (suc (suc zero))) s = (refl, refl)
latch_at-same (suc (suc (suc (suc k)))) s = (refl, refl)

-- A call is counted when its worker makes the operation on the total.
count_op-starts :
    (xs ys : List (List Op)) (o : Op) (os : List Op) (s : System)
    → (count_op o s.truth).sent + sum starts (xs ++ (os ∷ ys))
      ≡ s.truth.sent + sum starts (xs ++ ((o ∷ os) ∷ ys))
unfolding count_op starts
count_op-starts xs ys add_total os s =
    omega (arith, sum-append starts xs ys os, sum-append starts xs ys (add_total ∷ os))
count_op-starts xs ys add_err os s =
    omega (arith, sum-append starts xs ys os, sum-append starts xs ys (add_err ∷ os))
count_op-starts xs ys add_non2xx os s =
    omega (arith, sum-append starts xs ys os, sum-append starts xs ys (add_non2xx ∷ os))
count_op-starts xs ys (note_err e) os s =
    omega (arith, sum-append starts xs ys os, sum-append starts xs ys (note_err e ∷ os))
count_op-starts xs ys (add_body k) os s =
    omega (arith, sum-append starts xs ys os, sum-append starts xs ys (add_body k ∷ os))

-- Every permit taken is a call that was counted, is about to be, or waits for the client.
abbrev IsConserved : Run → Type 0
IsConserved s = s.race.truth.sent + sum starts s.race.workers + s.calling ≡ s.ticker.taken

module _ (fl : Floats) (p : Profile fl) where
  abbrev IsBoth : ℕ → Run → Type 0
  IsBoth n s = Steps fl p new_ticker s.ticker × Race.Reach n s.race

  Step-IsBoth : {n : ℕ} {s t : Run} → Step fl p s t → IsBoth n s → IsBoth n t
  Step-IsBoth {n} (paced u st kept f) (steps, race) =
      subst (IsBoth n) (sym f) (Ticker.then steps st, race)
  Step-IsBoth {n} (called rest e idle f) (steps, race) =
      subst (IsBoth n) (sym f) (Ticker.then steps (Ticker.waited rest e refl), race)
  Step-IsBoth {n} (replied left xs ys sc rep c e f) (steps, race) =
      subst (IsBoth n) (sym f) (steps, Race.then race (Race.answered xs ys sc rep e refl))
  Step-IsBoth {n} (counted xs ys o os e f) (steps, race) =
      subst (IsBoth n) (sym f) (steps, Race.then race (Race.operated xs ys o os e refl))
  Step-IsBoth {n} (latched f) (steps, race) =
      subst (IsBoth n) (sym f) (steps, Race.then race (Race.latched refl))

  -- A run is a run of the ticker, and a run of the workers and the latch: what holds in every state of
  -- either part holds in every state of the whole.
  pub run_refines :
      {n : ℕ} {s : Run} → Reach fl p n s → Steps fl p new_ticker s.ticker × Race.Reach n s.race
  unfolding begin_run
  run_refines begun = (Ticker.here, Race.begun)
  run_refines (then r st) = Step-IsBoth st (run_refines r)

  Step-IsConserved : {s t : Run} → Step fl p s t → IsConserved s → IsConserved t
  Step-IsConserved {s} (paced u st kept f) h = rw f (omega (arith, kept))
  Step-IsConserved {s} (called rest e idle f) h =
      subst IsConserved (sym f) (unfold take in omega arith)
  Step-IsConserved {s} (replied left xs ys sc rep c e f) h = subst IsConserved (sym f) (
      omega (
        arith,
        ap (sum starts) e,
        sum-append starts xs ys [],
        starts-nil,
        sum-append starts xs ys (tally_reply sc rep).0,
        (tally_answer-charge sc rep.cancelled rep.answer).1,
      ))
  Step-IsConserved {s} (counted xs ys o os e f) h =
      subst IsConserved (sym f)
        (omega (arith, ap (sum starts) e, count_op-starts xs ys o os s.race))
  Step-IsConserved {s} (latched f) h = subst IsConserved (sym f) (
      let (sent, same) = latch_at-same s.race.stage s.race in
      omega (arith, sent, ap (sum starts) same))

  Reach-IsConserved : {n : ℕ} {s : Run} → Reach fl p n s → IsConserved s
  unfolding begin_run
  Reach-IsConserved {n} begun = unfold start new_ticker in omega (arith, idle-starts n)
  Reach-IsConserved (then r st) = Step-IsConserved st (Reach-IsConserved r)

  -- At the end of a run, when the latch has made its four stores, no worker has an operation left or
  -- waits for the client, and fewer than 2 ^ 64 calls were counted, every permit that a worker took is
  -- a counted call: the reported requests and the calls before the latch are the permits taken. So the
  -- requests of the plateau are no more than the permits that the slices planned.
  pub requests_taken :
      {n : ℕ} {s : Run}
      → Reach fl p n s
      → s.race.stage ≡ 4
      → IsQuiet s.race
      → s.calling ≡ 0
      → s.race.truth.sent < word
      → (plateau_requests s.race.counters + s.race.truth.sent_before ≡ s.ticker.taken)
        × (plateau_requests s.race.counters ≤ s.ticker.planned)
  requests_taken {s = s} r done quiet none_calling few =
      let (steps, race) = run_refines r in
      let (requests, errors, refusals, body) = plateau_exact race done quiet few in
      let conserved = Reach-IsConserved r in
      let none_started = quiet-starts s.race.workers quiet in
      let (behind, near, planned, due) = run_paced fl p steps in (omega arith, omega arith)
