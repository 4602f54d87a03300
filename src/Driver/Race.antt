-- ===== src/Driver/Race.antt =====
-- The workers race with each other and with the latch of `main`: every atomic operation on the
-- counters is a step of its own.
pub mod Invariant
pub mod Plateau
pub mod Clean
use poseidon_tests.Prelude.{ℕ, zero, suc, ◌+◌, ◌≡◌, List, [], ◌∷◌, ◌++◌, replicate}
use poseidon_tests.Scenario.{Scenario}
use poseidon_tests.Driver.Counters.{
  Counters, zero_counters, Op, add_total, add_err, add_non2xx, note_err, add_body, apply, Reply,
  tally_reply, latch_total, latch_errs, latch_non2xx, latch_body,
}

-- What happened, with no bound on the numbers; the code does not keep it. The baselines are what the
-- latch met, and the later ones stand for the total's moment until their own.
pub record Truth : Type 0 where
  pub sent : ℕ
  pub failed : ℕ
  pub refused : ℕ
  pub received : ℕ
  pub sent_before : ℕ
  pub failed_before : ℕ
  pub refused_before : ℕ
  pub received_before : ℕ

unfoldable pub count_op : Op → Truth → Truth
count_op add_total h = record h { sent = h.sent + 1 }
count_op add_err h = record h { failed = h.failed + 1 }
count_op add_non2xx h = record h { refused = h.refused + 1 }
count_op (note_err e) h = h
count_op (add_body n) h = record h { received = h.received + n }

-- A worker is the list of operations that it still has to make for the reply it got; `stage` says how
-- many of the four stores the latch has made.
pub record System : Type 0 where
  pub counters : Counters
  pub workers : List (List Op)
  pub stage : ℕ
  pub truth : Truth

unfoldable pub latch_at : ℕ → System → System
latch_at zero s = record s {
  counters = latch_total s.counters;
  stage = 1;
  truth = record (s.truth) {
    sent_before = s.truth.sent;
    failed_before = s.truth.failed;
    refused_before = s.truth.refused;
    received_before = s.truth.received;
  };
}
latch_at (suc zero) s = record s {
  counters = latch_errs s.counters;
  stage = 2;
  truth = record (s.truth) { failed_before = s.truth.failed };
}
latch_at (suc (suc zero)) s = record s {
  counters = latch_non2xx s.counters;
  stage = 3;
  truth = record (s.truth) { refused_before = s.truth.refused };
}
latch_at (suc (suc (suc zero))) s = record s {
  counters = latch_body s.counters;
  stage = 4;
  truth = record (s.truth) { received_before = s.truth.received };
}
latch_at _ s = s

pub data Step (s t : System) : Type 0 where
  -- A worker at the head of its loop gets the reply to its next call.
  answered :
      (xs ys : List (List Op)) (sc : Scenario) (rep : Reply)
      → s.workers ≡ xs ++ ([] ∷ ys)
      → t ≡ record s { workers = xs ++ ((tally_reply sc rep).0 ∷ ys) }
      → Step s t
  -- A worker makes its next operation.
  operated :
      (xs ys : List (List Op)) (o : Op) (os : List Op)
      → s.workers ≡ xs ++ ((o ∷ os) ∷ ys)
      → t ≡ record s {
        counters = apply o s.counters;
        workers = xs ++ (os ∷ ys);
        truth = count_op o s.truth;
      }
      → Step s t
  -- `main` makes its next store.
  latched : t ≡ latch_at s.stage s → Step s t

unfoldable pub start : ℕ → System
start n = record {
  counters = zero_counters;
  workers = replicate n [];
  stage = 0;
  truth = record {
    sent = 0;
    failed = 0;
    refused = 0;
    received = 0;
    sent_before = 0;
    failed_before = 0;
    refused_before = 0;
    received_before = 0;
  };
}

-- The states of a driver with `n` workers.
pub data Reach (n : ℕ) : System → Type 0 where
  begun : Reach n (start n)
  then : {s t : System} → Reach n s → Step s t → Reach n t
