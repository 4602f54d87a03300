-- ===== src/Load/Ticker/Pacing.antt =====
-- How far the generator can run ahead of the workers, and how a run ends.
use poseidon_tests.Prelude.{
  ℕ, zero, suc, ◌+◌, ◌≤◌, ◌<◌, ◌≡◌, refl, sym, ap, subst, true, false, arith,
}
use poseidon_tests.Go.Floats.{Floats}
use poseidon_tests.Load.{Profile, Decision, finish, pause, send, decide}
use poseidon_tests.Load.Ticker.{
  capacity, Stand, deciding, returned, sending, Ticker, new_ticker, on_decision, stand_behind,
  release, take, Step, decided, put, gave_up, waited, refused, stopped, Steps, here, then,
}

-- The permits of the current slice that are still to be handed out.
unfoldable pub left_of : Stand → ℕ
left_of deciding = 0
left_of returned = 0
left_of (sending left) = left

pub record Inv (s : Ticker) : Type 0 where
  pub balanced : s.taken + s.buffered ≡ s.released
  pub has_room : s.buffered ≤ capacity
  pub within_plan : s.released + left_of s.stand ≤ s.planned
  pub on_plan : s.is_done ≡ false → s.released + left_of s.stand ≡ s.planned

left_of-stand_behind : (left : ℕ) → left_of (stand_behind left) ≡ left
unfolding left_of stand_behind
left_of-stand_behind zero = refl
left_of-stand_behind (suc left) = refl

on_decision-Inv : (d : Decision) (s : Ticker) → s.stand ≡ deciding → Inv s → Inv (on_decision d s)
unfolding on_decision left_of
on_decision-Inv finish s e inv =
    let none_left : left_of s.stand ≡ 0 = ap left_of e in
    record {
      balanced = inv.balanced;
      has_room = inv.has_room;
      within_plan = omega (arith, none_left, inv.within_plan);
      on_plan = λ f. omega (arith, none_left, inv.on_plan f);
    }
on_decision-Inv pause s e inv = inv
on_decision-Inv (send n interval) s e inv =
    let none_left : left_of s.stand ≡ 0 = ap left_of e in
    record {
      balanced = inv.balanced;
      has_room = inv.has_room;
      within_plan = omega (arith, none_left, inv.within_plan);
      on_plan = λ f. omega (arith, none_left, inv.on_plan f);
    }

release-Inv :
    (left : ℕ) (s : Ticker)
    → s.stand ≡ sending (suc left)
    → s.buffered < capacity
    → Inv s
    → Inv (release left s)
unfolding release
release-Inv left s e room inv =
    let before : left_of s.stand ≡ suc left = unfold left_of in ap left_of e in
    let behind = left_of-stand_behind left in
    record {
      balanced = omega (arith, inv.balanced);
      has_room = omega arith;
      within_plan = omega (arith, before, behind, inv.within_plan);
      on_plan = λ f. omega (arith, before, behind, inv.on_plan f);
    }

module _ (fl : Floats) (p : Profile fl) where
  Step-Inv : {s t : Ticker} → Step fl p s t → Inv s → Inv t
  Step-Inv {s} (decided elapsed e f) inv =
      subst Inv (sym f) (on_decision-Inv (decide fl p s.is_done elapsed) s e inv)
  Step-Inv {s} (put left e room f) inv = subst Inv (sym f) (release-Inv left s e room inv)
  Step-Inv {s} (gave_up left e is_done f) inv =
      let stop : Inv (record s { stand = returned }) =
        unfold left_of in
        record {
          balanced = inv.balanced;
          has_room = inv.has_room;
          within_plan = omega (arith, inv.within_plan);
          on_plan = λ still. cc;
        } in
      subst Inv (sym f) stop
  Step-Inv {s} (waited rest e f) inv =
      let fewer : Inv (take rest s) =
        unfold take in
        record {
          balanced = omega (arith, inv.balanced);
          has_room = omega (arith, inv.has_room);
          within_plan = inv.within_plan;
          on_plan = inv.on_plan;
        } in
      subst Inv (sym f) fewer
  Step-Inv (refused cancelled why f) inv = subst Inv (sym f) inv
  Step-Inv {s} (stopped f) inv =
      let stop : Inv (record s { is_done = true }) = record {
        balanced = inv.balanced;
        has_room = inv.has_room;
        within_plan = inv.within_plan;
        on_plan = λ still. cc;
      } in
      subst Inv (sym f) stop

  Steps-Inv : {s t : Ticker} → Steps fl p s t → Inv s → Inv t
  Steps-Inv here inv = inv
  Steps-Inv (then st step) inv = Step-Inv step (Steps-Inv st inv)

  new_ticker-Inv : Inv new_ticker
  unfolding new_ticker left_of
  new_ticker-Inv = record {
    balanced = omega arith;
    has_room = omega arith;
    within_plan = omega arith;
    on_plan = λ _. omega arith;
  }

  -- At every moment of a run the workers have taken no more permits than were put into the channel,
  -- at most 64 of those wait in it, and the slices planned them all. As long as `Stop` was not called,
  -- those put in and those still due in the current slice are exactly the planned ones.
  pub run_paced :
      {s : Ticker}
      → Steps fl p new_ticker s
      → (s.taken ≤ s.released)
        × (s.released ≤ s.taken + 64)
        × (s.released ≤ s.planned)
        × (s.is_done ≡ false → s.released + left_of s.stand ≡ s.planned)
  run_paced st =
      let inv = Steps-Inv st new_ticker-Inv in
      (
        omega (arith, inv.balanced),
        omega (arith, inv.balanced, inv.has_room),
        omega (arith, inv.within_plan),
        inv.on_plan,
      )
