-- ===== src/Load.antt =====
-- internal/load/load.go: the profile of a run and the decisions of the generator's loop. The channels
-- are in the module Ticker.
pub mod Ticker
pub mod Loop
mod Tests
use poseidon_tests.Prelude.{ℕ, Bool, if◌then◌else◌, add64, slt, not_pos, not}
use poseidon_tests.Go.Floats.{Floats}

-- The durations are int64 counts of nanoseconds.
abbrev pub slice : ℕ
slice = 100000000

-- What the head of the loop decides: to return, to sleep for a slice, or to hand out `n` permits with
-- an interval between them.
pub data Decision : Type 0 where
  finish pause : Decision
  send : (n interval : ℕ) → Decision

module _ (fl : Floats) where
  pub record Profile : Type 0 where
    pub target_rps : fl.Float
    pub ramp : ℕ
    pub plateau : ℕ

  unfoldable pub total : Profile → ℕ
  total p = add64 p.ramp p.plateau

  abbrev pub at_least : fl.Float → fl.Float → fl.Float
  at_least floor frac = if fl.lt frac floor then floor else frac

  unfoldable pub rate_at : Profile → ℕ → fl.Float
  rate_at p t =
      if not (slt t p.ramp)
      then p.target_rps
      else if not_pos p.ramp
      then p.target_rps
      else fl.mul p.target_rps (at_least (fl.lit 2 100) (fl.div (fl.of_int t) (fl.of_int p.ramp)))

  -- `n := int(rate * slice.Seconds())`, and at least 1.
  unfoldable pub permits_at : fl.Float → ℕ
  permits_at rate = let n = fl.to_int (fl.mul rate (fl.seconds slice)) in if slt n 1 then 1 else n

  -- The head of the loop of `run`: whether `done` is closed, and the time since the start.
  unfoldable pub decide : Profile → Bool → ℕ → Decision
  decide p is_done elapsed =
      let rate = rate_at p elapsed in
      let n = permits_at rate in
      if is_done
      then finish
      else if not (slt elapsed (total p))
      then finish
      else if fl.le rate (fl.lit 0 1)
      then pause
      else send n (fl.to_int (fl.div (fl.of_int slice) (fl.of_int n)))
