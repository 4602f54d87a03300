-- ===== src/Scenario/Mix/Frequency.antt =====
-- How often a mix selects each kind of scenario.
use poseidon_tests.Prelude.{ℕ, ◌<◌, ◌≡◌, refl, ◌∙◌, Option, none, some, ◌>>=◌, List, half}
use poseidon_tests.Weighted.{pick, total}
use poseidon_tests.Weighted.Choice.{sum}
use poseidon_tests.Weighted.Frequency.{tally, share, tally-pick, hit, tally_hits}
use poseidon_tests.Scenario.{Kind, is_kind, Scenario, Weight, all, echo}
use poseidon_tests.Scenario.Mix.{weight_of, scenario_at}

-- How many of the numbers below `t` select a scenario of kind `k`.
abbrev pub selections : Kind → List Weight → ℕ → ℕ
selections k ws t = tally (λ (sc : Scenario). is_kind k sc.kind) (scenario_at ws) 0 t

-- The weight that a list gives to the kind `k`.
abbrev pub kind_share : Kind → List Weight → ℕ
kind_share k = share (λ (w : Weight). is_kind k w.kind) weight_of

all-kind : (k : Kind) → (all k).kind ≡ k
unfolding all
all-kind echo = refl
all-kind _ = refl

hit-scenario_at :
    (k : Kind) (o : Option Weight)
    → hit (λ (sc : Scenario). is_kind k sc.kind) (o >>= λ w. some (all w.kind))
      ≡ hit (λ (w : Weight). is_kind k w.kind) o
hit-scenario_at k none = refl
hit-scenario_at k (some w) = rw (all-kind w.kind)

-- Of the numbers below the total that `NewMix` computes, exactly as many select a scenario of kind
-- `k` as the weights of that kind say, if the weights do not overflow.
pub selections-kind_share :
    (k : Kind) (ws : List Weight)
    → sum weight_of ws < half
    → selections k ws (total weight_of ws) ≡ kind_share k ws
unfolding scenario_at
selections-kind_share k ws h =
    tally_hits _ _ (scenario_at ws) (pick weight_of ws)
      (λ i. hit-scenario_at k (pick weight_of ws i)) 0 (total weight_of ws)
    ∙ tally-pick (λ (w : Weight). is_kind k w.kind) weight_of ws h
