-- ===== src/Driver/Run.antt =====
-- A whole run of the driver: the generator and its channel of permits, the workers and the latch of
-- `main`, in any interleaving. A worker holds a permit from `Wait` to the reply of the client.
pub mod Conserved
mod Tests
use poseidon_tests.Prelude.{ℕ, suc, ◌+◌, ◌<◌, ◌≡◌, List, [], ◌∷◌, ◌++◌}
use poseidon_tests.Go.Floats.{Floats}
use poseidon_tests.Scenario.{Scenario}
use poseidon_tests.Load.{Profile}
use poseidon_tests.Load.Ticker.{Ticker, new_ticker, take}
use poseidon_tests.Load.Ticker
use poseidon_tests.Driver.Counters.{Op, apply, Reply, tally_reply}
use poseidon_tests.Driver.Race.{System, count_op, latch_at, start}

-- `calling` is the number of workers that have taken a permit and wait for the client.
pub record Run : Type 0 where
  pub ticker : Ticker
  pub race : System
  pub calling : ℕ

-- The workers with no operation left; those that are calling are among them.
unfoldable pub at_rest : List (List Op) → ℕ
at_rest [] = 0
at_rest ([] ∷ ws) = suc (at_rest ws)
at_rest ((o ∷ os) ∷ ws) = at_rest ws

unfoldable pub begin_run : ℕ → Run
begin_run n = record { ticker = new_ticker; race = start n; calling = 0 }

module _ (fl : Floats) (p : Profile fl) where
  pub data Step (s t : Run) : Type 0 where
    -- The generator, `Stop`, or a `Wait` that returns false.
    paced :
        (u : Ticker)
        → Ticker.Step fl p s.ticker u
        → u.taken ≡ s.ticker.taken
        → t ≡ record s { ticker = u }
        → Step s t
    -- `Wait` returns true in a worker, which then calls the client.
    called :
        (rest : ℕ)
        → s.ticker.buffered ≡ suc rest
        → s.calling < at_rest s.race.workers
        → t ≡ record s { ticker = take rest s.ticker; calling = s.calling + 1 }
        → Step s t
    -- The client replies.
    replied :
        (left : ℕ) (xs ys : List (List Op)) (sc : Scenario) (rep : Reply)
        → s.calling ≡ suc left
        → s.race.workers ≡ xs ++ ([] ∷ ys)
        → t ≡ record s {
          calling = left;
          race = record (s.race) { workers = xs ++ ((tally_reply sc rep).0 ∷ ys) };
        }
        → Step s t
    -- A worker makes its next operation on the counters.
    counted :
        (xs ys : List (List Op)) (o : Op) (os : List Op)
        → s.race.workers ≡ xs ++ ((o ∷ os) ∷ ys)
        → t ≡ record s {
          race = record (s.race) {
            counters = apply o s.race.counters;
            workers = xs ++ (os ∷ ys);
            truth = count_op o s.race.truth;
          };
        }
        → Step s t
    -- `main` makes its next store.
    latched : t ≡ record s { race = latch_at s.race.stage s.race } → Step s t

  -- The states of a run with `n` workers.
  pub data Reach (n : ℕ) : Run → Type 0 where
    begun : Reach n (begin_run n)
    then : {s t : Run} → Reach n s → Step s t → Reach n t
