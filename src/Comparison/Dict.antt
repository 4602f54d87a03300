-- ===== src/Comparison/Dict.antt =====
-- A Python `dict`, in the order of its insertions, over keys with a test for equality.
use mathlib.Core.Option.{or_else}
use poseidon_tests.Prelude.{
  ap, ◌≡◌, refl, arith, Bool, true, false, List, [], ◌∷◌, Option, none, some, Bytes, text_eq,
  text_eq_iff, if◌then◌else◌, ◌↔◌, Bool-cases, Option-cases, inl, inr, ◌&&◌,
}

pub record Key (K : Type 0) : Type 0 where
  pub same : K → K → Bool
  pub same_iff : (a b : K) → (same a b ≡ true) ↔ (a ≡ b)

instance abbrev pub name_key : Key Bytes
name_key = record { same = text_eq; same_iff = text_eq_iff }

-- A pair `(regime, arm)`.
abbrev pub Cell : Type 0
Cell = Bytes × Bytes

unfoldable pub cell_eq : Cell → Cell → Bool
cell_eq (r, a) (r', a') = text_eq r r' && text_eq a a'

pub cell_eq_iff : (c d : Cell) → (cell_eq c d ≡ true) ↔ (c ≡ d)
unfolding cell_eq
cell_eq_iff (r, a) (r', a') = (
  λ e. ground (arith, text_eq_iff r r', text_eq_iff a a'),
  λ e. ground (arith, text_eq_iff r r', text_eq_iff a a'),
)

instance abbrev pub cell_key : Key Cell
cell_key = record { same = cell_eq; same_iff = cell_eq_iff }

shadowed {ℓ} :
    {A : Type ℓ} (b : Bool) (x y : A) (z : Option A)
    → (if b then some x else z) ≡ (if b then some x else (if b then some y else z))
shadowed true x y z = refl
shadowed false x y z = refl

module _ {ℓ} {K : Type 0} {A : Type ℓ} ⦃key : Key K⦄ where
  -- `d.get(k)`
  unfoldable pub find : K → List (K × A) → Option A
  find k [] = none
  find k ((j, v) ∷ d) = if key.same j k then some v else find k d

  -- `d[k] = v`
  unfoldable pub assign : K → A → List (K × A) → List (K × A)
  assign k v [] = (k, v) ∷ []
  assign k v ((j, w) ∷ d) = if key.same j k then (j, v) ∷ d else (j, w) ∷ assign k v d

  -- `d.setdefault(k, v)`
  unfoldable pub set_default : K → A → List (K × A) → List (K × A)
  unfolding find assign
  set_default k v d = elim (find k d) [ some w ↦ d | none ↦ assign k v d ]

  apart :
      (i k j : K)
      → key.same i k ≡ false
      → (v w : A) (rest : Option A)
      → (if key.same i j then some w else (if key.same k j then some v else rest))
        ≡ (if key.same k j then some v else (if key.same i j then some w else rest))
  apart i k j other v w rest = ground (arith, key.same_iff i k, key.same_iff i j, key.same_iff k j)

  pub find-assign :
      (k j : K) (v : A) (d : List (K × A))
      → find j (assign k v d) ≡ (if key.same k j then some v else find j d)
  unfolding find assign
  find-assign k j v [] = refl
  find-assign k j v ((i, w) ∷ d) = elim (Bool-cases (key.same i k)) [
    | inl same ↦ rw same (rw ((key.same_iff i k).0 same) (shadowed (key.same k j) v w (find j d)))
    | inr other ↦ rw other (rw (find-assign k j v d) (apart i k j other v w (find j d)))
  ]

  pub find_same : (k j : K) (d : List (K × A)) → key.same k j ≡ true → find k d ≡ find j d
  find_same k j d same = ap (λ c. find c d) ((key.same_iff k j).0 same)

  -- `set_default` gives a value to a key that has none.
  pub find-set_default :
      (k j : K) (v : A) (d : List (K × A))
      → find j (set_default k v d) ≡ or_else (find j d) (if key.same k j then some v else none)
  unfolding set_default or_else
  find-set_default k j v d = elim (Option-cases (find k d)) [
    | inl absent ↦ rw (absent, set_default) (ground (arith, find-assign k j v d, find_same k j d))
    | inr (w, there) ↦ rw (there, set_default) (ground (arith, find_same k j d))
  ]
