-- ===== src/Load/Loop.antt =====
-- The loop of `run` (internal/load/load.go) over time: the time since the start, in nanoseconds, goes
-- through the loop, and what the machine and the workers add to it are delays of any length.
mod Tests
use poseidon_tests.Prelude.{
  ℕ, zero, suc, ◌+◌, ◌*◌, ◌-◌, ◌/◌, ◌≤◌, ◌<◌, ◌≡◌, refl, true, false, List, [], ◌∷◌, Option, none,
  some, ◌>>=◌, arith, half, length, All, slt, ltb, mul64, if◌then◌else◌, Bool-cases, inl, inr,
}
use poseidon_tests.Go.Floats.{Floats}
use poseidon_tests.Load.{
  slice, Profile, total, rate_at, permits_at, Decision, finish, pause, send, decide,
}

-- The delays of the round `k`: from its head to the start of its slice, until the permit `i` is in the
-- channel, and by which `time.Sleep` sleeps longer than asked.
pub record Delays : Type 0 where
  pub thinks : (k : ℕ) → ℕ
  pub blocks : (k i : ℕ) → ℕ
  pub oversleeps : (k i : ℕ) → ℕ

-- `time.Since`: a difference that is no int64 is the largest.
unfoldable pub since : ℕ → ℕ
since now = if ltb now half then now else half - 1

-- What a round adds to the slices of the rounds behind it: the number of its permits.
unfoldable pub collect : Decision → Option (List ℕ) → Option (List ℕ)
collect finish later = some []
collect pause later = later
collect (send n interval) later = do ns ← later; some (n ∷ ns)

module _ (d : Delays) (k : ℕ) where
  -- `time.Sleep` until `wake`, which is not called where that is over.
  unfoldable pub sleep_until : (i wake now : ℕ) → ℕ
  sleep_until i wake now = if ltb now wake then wake + d.oversleeps k i else now

  -- The inner loop from the permit `i` on, with `left` to go, up to its end in time: behind each permit
  -- it sleeps until as many intervals before the end of the slice as permits are left. The intervals
  -- make up the slice, so that their product does not wrap around.
  unfoldable pub hand_out : (interval slice_end left i now : ℕ) → ℕ
  hand_out interval slice_end zero i now = now
  hand_out interval slice_end (suc left) i now =
      hand_out interval slice_end left (suc i)
        (sleep_until i (slice_end - mul64 left interval) (now + d.blocks k i))

  -- The time behind the round.
  unfoldable pub pass : Decision → ℕ → ℕ
  pass finish now = now
  pass pause now = now + slice + d.oversleeps k 0
  pass (send n interval) now = hand_out interval (now + d.thinks k + slice) n 0 (now + d.thinks k)

  sleep_until-late : (i wake now : ℕ) → wake ≤ sleep_until i wake now
  unfolding sleep_until
  sleep_until-late i wake now = ground arith

  -- A slice with a permit does not end before its time.
  hand_out-late :
      (interval slice_end left i now : ℕ) → slice_end ≤ hand_out interval slice_end (suc left) i now
  unfolding hand_out
  hand_out-late interval slice_end zero i now =
      let last : mul64 zero interval ≡ 0 = omega arith in
      let late = sleep_until-late i (slice_end - mul64 zero interval) (now + d.blocks k i) in
      omega (arith, late, last)
  hand_out-late interval slice_end (suc left) i now =
      hand_out-late interval slice_end left (suc i) _

  pause-late : (now : ℕ) → now + slice ≤ pass pause now
  unfolding pass
  pause-late now = omega arith

  send-late : (n interval now : ℕ) → 0 < n → now + slice ≤ pass (send n interval) now
  unfolding pass
  send-late zero interval now h = absurd (omega arith)
  send-late (suc n) interval now h =
      let late = hand_out-late interval (now + d.thinks k + slice) n 0 (now + d.thinks k) in
      omega (arith, late)

module _ (fl : Floats) (p : Profile fl) (d : Delays) where
  -- The permits handed out from round `k` on, slice by slice, where `Stop` is not called; `none` means
  -- that the fuel ran out.
  unfoldable pub slices : (fuel k now : ℕ) → Option (List ℕ)
  slices zero k now = none
  slices (suc fuel) k now =
      let todo = decide fl p false (since now) in
      collect todo (slices fuel (suc k) (pass d k todo now))

  -- A slice hands out at least one permit.
  permits_at-pos : (rate : fl.Float) → 0 < permits_at fl rate
  unfolding permits_at
  permits_at-pos rate = ground arith

  -- While the run lasts, the time is not past its total.
  since-total : (now : ℕ) → slt (since now) (total fl p) ≡ true → now < total fl p
  unfolding since
  since-total now h = ground arith

  abbrev Ends : (fuel k now : ℕ) → Type 0
  Ends fuel k now =
      (ns : List ℕ) × (slices fuel k now ≡ some ns) × (suc (length ns) ≤ fuel) × All (λ n. 0 < n) ns

  slices-Ends :
      (fuel k now : ℕ) → total fl p + slice ≤ now + fuel * slice → 0 < fuel → Ends fuel k now
  unfolding slices decide collect
  slices-Ends zero k now enough some_fuel = absurd (omega arith)
  slices-Ends (suc fuel) k now enough some_fuel = elim (Bool-cases (slt (since now) (total fl p))) [
    | inl lasts ↦
        let early = since-total now lasts in
        let more : 0 < fuel = omega arith in
        let rate = rate_at fl p (since now) in
        elim (Bool-cases (fl.le rate (fl.lit 0 1))) [
          | inl still ↦
              let later = pause-late d k now in
              let (ns, ends, few, all_pos) =
                slices-Ends fuel (suc k) (pass d k pause now) (omega (arith, later)) more in
              rw (lasts, still) (ns, ends, omega arith, all_pos)
          | inr on ↦
              let n = permits_at fl rate in
              let interval = fl.to_int (fl.div (fl.of_int slice) (fl.of_int n)) in
              let late = send-late d k n interval now (permits_at-pos rate) in
              let (ns, ends, few, all_pos) =
                slices-Ends fuel (suc k) (pass d k (send n interval) now) (omega (arith, late))
                  more in
              rw (lasts, on, ends) (n ∷ ns, refl, omega arith, (permits_at-pos rate, all_pos))
        ]
    | inr over ↦ rw over ([], refl, omega arith, tt)
  ]

  -- The loop ends, whatever the delays and the rates, if every permit is taken in the end and `Stop` is
  -- not called: since it sleeps to the end of each slice, or through a slice where the rate is not
  -- positive, it makes at most one round for each 100 ms of the profile's total, and one more, and each
  -- of its slices hands out a permit or more.
  pub slices_total :
      (ns : List ℕ) × (slices (total fl p / slice + 2) 0 0 ≡ some ns)
      × (length ns ≤ total fl p / slice + 1)
      × All (λ n. 0 < n) ns
  slices_total =
      let (ns, ends, few, all_pos) =
        slices-Ends (total fl p / slice + 2) 0 0 (omega arith) (omega arith) in
      (ns, ends, omega arith, all_pos)
