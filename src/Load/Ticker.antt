-- ===== src/Load/Ticker.antt =====
-- `Ticker` of internal/load/load.go: the generator and the workers over the buffered channel of
-- permits, as a step relation. Sleeping is left out: a step may come at any time.
pub mod Pacing
use poseidon_tests.Prelude.{ℕ, zero, suc, ◌+◌, ◌<◌, ◌≡◌, Bool, true, false, ◌⊎◌}
use poseidon_tests.Go.Floats.{Floats}
use poseidon_tests.Load.{Profile, Decision, finish, pause, send, decide}

-- The capacity of `permits`.
abbrev pub capacity : ℕ
capacity = 64

-- Where `run` stands: at the head of its loop, with `left` permits of a slice to hand out, or behind
-- its return, which closes `permits`.
pub data Stand : Type 0 where
  deciding returned : Stand
  sending : (left : ℕ) → Stand

-- `buffered` is the number of permits in the channel. The code does not keep the last three: the
-- permits that its slices planned, that it put into the channel, and that workers took.
pub record Ticker : Type 0 where
  pub stand : Stand
  pub is_done : Bool
  pub buffered : ℕ
  pub planned : ℕ
  pub released : ℕ
  pub taken : ℕ

unfoldable pub new_ticker : Ticker
new_ticker = record {
  stand = deciding;
  is_done = false;
  buffered = 0;
  planned = 0;
  released = 0;
  taken = 0;
}

unfoldable pub on_decision : Decision → Ticker → Ticker
on_decision finish s = record s { stand = returned }
on_decision pause s = s
on_decision (send n interval) s = record s { stand = sending n; planned = s.planned + n }

unfoldable pub stand_behind : ℕ → Stand
stand_behind zero = deciding
stand_behind (suc left) = sending (suc left)

unfoldable pub release : ℕ → Ticker → Ticker
release left s = record s {
  stand = stand_behind left;
  buffered = s.buffered + 1;
  released = s.released + 1;
}

-- What `Wait` does where it returns true.
unfoldable pub take : ℕ → Ticker → Ticker
take rest s = record s { buffered = rest; taken = s.taken + 1 }

module _ (fl : Floats) (p : Profile fl) where
  pub data Step (s t : Ticker) : Type 0 where
    decided :
        (elapsed : ℕ)
        → s.stand ≡ deciding
        → t ≡ on_decision (decide fl p s.is_done elapsed) s
        → Step s t
    -- `t.permits <- struct{}{}`, where the channel has room.
    put :
        (left : ℕ)
        → s.stand ≡ sending (suc left)
        → s.buffered < capacity
        → t ≡ release left s
        → Step s t
    -- `<-t.done` in the midst of a slice.
    gave_up :
        (left : ℕ)
        → s.stand ≡ sending (suc left)
        → s.is_done ≡ true
        → t ≡ record s { stand = returned }
        → Step s t
    -- A worker's `Wait` returns true. A closed channel still gives what it holds.
    waited : (rest : ℕ) → s.buffered ≡ suc rest → t ≡ take rest s → Step s t
    -- A worker's `Wait` returns false, as the channel is closed and empty or the context has ended.
    refused :
        (cancelled : Bool)
        → (cancelled ≡ true) ⊎ ((s.stand ≡ returned) × (s.buffered ≡ 0))
        → t ≡ s
        → Step s t
    -- `Stop`
    stopped : t ≡ record s { is_done = true } → Step s t

  -- The states that come behind `s`.
  pub data Steps (s : Ticker) : Ticker → Type 0 where
    here : Steps s s
    then : {t u : Ticker} → Steps s t → Step t u → Steps s u
