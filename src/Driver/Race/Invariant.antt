-- ===== src/Driver/Race/Invariant.antt =====
-- What holds of the counters in every interleaving.
use poseidon_tests.Prelude.{
  ℕ, zero, suc, ◌+◌, ◌%◌, ◌≤◌, ◌≡◌, refl, sym, ap, ◌∙◌, subst, List, [], ◌∷◌, ◌++◌, arith, word,
  length, All, replicate, Bool, true, false, ◌⊎◌, inl, inr, Bytes,
}
use poseidon_tests.Weighted.Choice.{sum}
use poseidon_tests.ClientSet.{Result}
use poseidon_tests.Scenario.{Scenario}
use poseidon_tests.Driver.Counters.{
  zero_counters, Op, add_total, add_err, add_non2xx, note_err, add_body, apply, tally_answer,
  tally_reply, latch_total, latch_errs, latch_non2xx, latch_body,
}
use poseidon_tests.Driver.Race.{
  System, count_op, latch_at, Step, answered, operated, latched, start, Reach, begun, then,
}

-- How many operations of a list count an error or a non-2xx reply, and how many count a call.
unfoldable pub charge : List Op → ℕ
charge [] = 0
charge (add_err ∷ os) = suc (charge os)
charge (add_non2xx ∷ os) = suc (charge os)
charge (o ∷ os) = charge os

unfoldable pub starts : List Op → ℕ
starts [] = 0
starts (add_total ∷ os) = suc (starts os)
starts (o ∷ os) = starts os

pub record Inv (n : ℕ) (s : System) : Type 0 where
  pub workers_kept : length s.workers ≡ n
  pub charged_once : All (λ os. charge os ≤ 1) s.workers
  pub total_exact : s.counters.total ≡ s.truth.sent % word
  pub errs_exact : s.counters.errs ≡ s.truth.failed % word
  pub non2xx_exact : s.counters.non2xx ≡ s.truth.refused % word
  pub body_exact : s.counters.body_byte ≡ s.truth.received % word
  pub start_total_exact : s.counters.plateau_start_total ≡ s.truth.sent_before % word
  pub start_errs_exact : 2 ≤ s.stage → s.counters.plateau_start_errs ≡ s.truth.failed_before % word
  pub start_non2xx_exact :
      3 ≤ s.stage → s.counters.plateau_start_non2xx ≡ s.truth.refused_before % word
  pub start_body_exact :
      4 ≤ s.stage → s.counters.plateau_start_body ≡ s.truth.received_before % word
  pub sent_grows : s.truth.sent_before ≤ s.truth.sent
  pub failed_grows : s.truth.failed_before ≤ s.truth.failed
  pub refused_grows : s.truth.refused_before ≤ s.truth.refused
  pub received_grows : s.truth.received_before ≤ s.truth.received
  pub covered :
      s.truth.failed + s.truth.refused + sum charge s.workers ≤ s.truth.sent + sum starts s.workers
  pub plateau_covered :
      s.truth.failed + s.truth.refused + sum charge s.workers + s.truth.sent_before
      ≤ s.truth.failed_before + s.truth.refused_before + s.truth.sent + sum starts s.workers + n

-- A list of workers taken apart at one of them.
pub sum-append :
    (f : List Op → ℕ) (xs ys : List (List Op)) (os : List Op)
    → sum f (xs ++ (os ∷ ys)) ≡ sum f xs + f os + sum f ys
unfolding sum
sum-append f [] ys os = omega arith
sum-append f (x ∷ xs) ys os = omega (arith, sum-append f xs ys os)

length-exchange :
    (xs ys : List (List Op)) (p q : List Op) → length (xs ++ (p ∷ ys)) ≡ length (xs ++ (q ∷ ys))
length-exchange [] ys p q = refl
length-exchange (x ∷ xs) ys p q = ap suc (length-exchange xs ys p q)

charges :
    (xs ys : List (List Op)) (p q : List Op)
    → charge q ≤ 1
    → All (λ os. charge os ≤ 1) (xs ++ (p ∷ ys))
    → All (λ os. charge os ≤ 1) (xs ++ (q ∷ ys))
charges [] ys p q h a = (h, a.1)
charges (x ∷ xs) ys p q h a = (a.0, charges xs ys p q h a.1)

charge_at :
    (xs ys : List (List Op)) (p : List Op)
    → All (λ os. charge os ≤ 1) (xs ++ (p ∷ ys))
    → charge p ≤ 1
charge_at [] ys p a = a.0
charge_at (x ∷ xs) ys p a = charge_at xs ys p a.1

-- The operations of a reply count one call and at most one error or non-2xx reply.
pub tally_answer-charge :
    (sc : Scenario) (b : Bool) (a : Bytes ⊎ Result)
    → (charge (tally_answer sc b a).0 ≤ 1) × (starts (tally_answer sc b a).0 ≡ 1)
unfolding tally_answer charge starts
tally_answer-charge sc true (inl e) = (omega arith, refl)
tally_answer-charge sc false (inl e) = (omega arith, refl)
tally_answer-charge sc true (inr res) = ground arith
tally_answer-charge sc false (inr res) = ground arith

charge-le-length : (ws : List (List Op)) → All (λ os. charge os ≤ 1) ws → sum charge ws ≤ length ws
unfolding sum
charge-le-length [] a = omega arith
charge-le-length (w ∷ ws) a = omega (arith, charge-le-length ws a.1)

idle :
    (n : ℕ)
    → (length (replicate {A = List Op} n []) ≡ n)
      × All (λ os. charge os ≤ 1) (replicate n [])
      × (sum charge (replicate n []) ≡ 0)
      × (sum starts (replicate n []) ≡ 0)
unfolding sum charge starts
idle zero = (refl, tt, refl, refl)
idle (suc n) =
    let (long, once, none_charged, none_started) = idle n in
    (ap suc long, (omega arith, once), omega arith, omega arith)

start-Inv : (n : ℕ) → Inv n (start n)
unfolding start zero_counters
start-Inv n = ground (arith, idle n)

-- What the sums say of a list of workers taken apart at one of them.
module _ {n : ℕ} (s : System) (xs ys : List (List Op)) (p q : List Op)
    (e : s.workers ≡ xs ++ (p ∷ ys)) (inv : Inv n s) where
  exchanged :
      (length (xs ++ (q ∷ ys)) ≡ n)
      × (charge p ≤ 1)
      × (charge q ≤ 1 → All (λ os. charge os ≤ 1) (xs ++ (q ∷ ys)))
      × (sum charge (xs ++ (q ∷ ys)) + charge p ≡ sum charge s.workers + charge q)
      × (sum starts (xs ++ (q ∷ ys)) + starts p ≡ sum starts s.workers + starts q)
  exchanged =
      let apart = subst (All (λ os. charge os ≤ 1)) e inv.charged_once in
      (
        length-exchange xs ys q p ∙ ap length (sym e) ∙ inv.workers_kept,
        charge_at xs ys p apart,
        λ h. charges xs ys p q h apart,
        omega (arith, ap (sum charge) e, sum-append charge xs ys p, sum-append charge xs ys q),
        omega (arith, ap (sum starts) e, sum-append starts xs ys p, sum-append starts xs ys q),
      )

answered-Inv :
    {n : ℕ} (s : System) (xs ys : List (List Op)) (ops : List Op)
    → charge ops ≤ 1
    → starts ops ≡ 1
    → s.workers ≡ xs ++ ([] ∷ ys)
    → Inv n s
    → Inv n (record s { workers = xs ++ (ops ∷ ys) })
unfolding charge starts
answered-Inv s xs ys ops c o e inv = ground (arith, exchanged s xs ys [] ops e inv)

operated-Inv :
    {n : ℕ} (s : System) (xs ys : List (List Op)) (o : Op) (os : List Op)
    → s.workers ≡ xs ++ ((o ∷ os) ∷ ys)
    → Inv n s
    → Inv n (record s {
      counters = apply o s.counters;
      workers = xs ++ (os ∷ ys);
      truth = count_op o s.truth;
    })
unfolding charge starts apply count_op
operated-Inv s xs ys add_total os e inv =
    ground (arith, exchanged s xs ys (add_total ∷ os) os e inv)
operated-Inv s xs ys add_err os e inv = ground (arith, exchanged s xs ys (add_err ∷ os) os e inv)
operated-Inv s xs ys add_non2xx os e inv =
    ground (arith, exchanged s xs ys (add_non2xx ∷ os) os e inv)
operated-Inv s xs ys (note_err t) os e inv =
    ground (arith, exchanged s xs ys (note_err t ∷ os) os e inv)
operated-Inv s xs ys (add_body k) os e inv =
    ground (arith, exchanged s xs ys (add_body k ∷ os) os e inv)

latch_at-Inv : {n : ℕ} (s : System) (k : ℕ) → s.stage ≡ k → Inv n s → Inv n (latch_at k s)
unfolding latch_at latch_total latch_errs latch_non2xx latch_body
latch_at-Inv s zero e inv = ground (arith, charge-le-length s.workers inv.charged_once)
latch_at-Inv s (suc zero) e inv = ground arith
latch_at-Inv s (suc (suc zero)) e inv = ground arith
latch_at-Inv s (suc (suc (suc zero))) e inv = ground arith
latch_at-Inv s (suc (suc (suc (suc k)))) e inv = inv

pub Step-Inv : {n : ℕ} {s t : System} → Step s t → Inv n s → Inv n t
Step-Inv {n} {s} (answered xs ys sc rep e f) inv =
    let (once, first) = tally_answer-charge sc rep.cancelled rep.answer in
    subst (Inv n) (sym f) (answered-Inv s xs ys (tally_reply sc rep).0 once first e inv)
Step-Inv {n} {s} (operated xs ys o os e f) inv =
    subst (Inv n) (sym f) (operated-Inv s xs ys o os e inv)
Step-Inv {n} {s} (latched f) inv = subst (Inv n) (sym f) (latch_at-Inv s s.stage refl inv)

pub Reach-Inv : {n : ℕ} {s : System} → Reach n s → Inv n s
Reach-Inv {n} begun = start-Inv n
Reach-Inv (then r st) = Step-Inv st (Reach-Inv r)
