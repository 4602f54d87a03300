-- ===== src/Weighted.antt =====
-- The weighted choice that `Mix.Next` (internal/scenario/scenario.go) and `pickClass`
-- (internal/payload/payload.go) both make: subtract each weight from the drawn number until it is
-- negative. The proofs are in the modules below.
pub mod Choice
pub mod Frequency
use poseidon_tests.Prelude.{
  ℕ, List, [], ◌∷◌, Option, none, some, foldl, if◌then◌else◌, get_last?, add64, sub64, is_neg,
}

module _ {A : Type 0} (weight : A → ℕ) where
  -- `total += w.Weight` over the list.
  unfoldable pub total : List A → ℕ
  total xs = foldl (λ t x. add64 t (weight x)) 0 xs

  -- The loop; `none` means that it ran to its end.
  unfoldable pub choose : List A → ℕ → Option A
  choose [] n = none
  choose (x ∷ xs) n =
      let m = sub64 n (weight x) in let rest = choose xs m in if is_neg m then some x else rest

  -- What the loop chooses, or the last element; `none` is the panic on an empty list.
  abbrev or_last : List A → Option A → Option A
  or_last xs (some x) = some x
  or_last xs none = get_last? xs

  unfoldable pub pick : List A → ℕ → Option A
  unfolding choose
  pick xs n = or_last xs (choose xs n)
