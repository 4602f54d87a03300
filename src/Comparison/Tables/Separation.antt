-- ===== src/Comparison/Tables/Separation.antt =====
-- `separated`, against the comparison of every two samples.
use poseidon_tests.Prelude.{
  ◌≡◌, ◌↔◌, ◌⊎◌, inl, inr, refl, ap, Bool, true, false, ◌||◌, List, [], ◌∷◌, some, All, All-map,
  Bool-cases,
}
use poseidon_tests.Comparison.Numbers.{Numbers, max_of, min_of}
use poseidon_tests.Comparison.Tables.{separated}

-- What `<` is on numbers none of which is a NaN.
pub record IsOrder (py : Numbers) : Type 0 where
  pub asymmetric : (a b : py.Number) → py.lt a b ≡ true → py.lt b a ≡ false
  pub between : (a b c : py.Number) → py.lt a c ≡ true → (py.lt a b ≡ true) ⊎ (py.lt b c ≡ true)

module _ (py : Numbers) where
  -- Every sample on the left is below every sample on the right.
  abbrev pub AllBelow : List py.Number → List py.Number → Type 0
  AllBelow xs ys = All (λ x. All (λ y. py.lt x y ≡ true) ys) xs

  squeeze : {a b : Bool} → (a ≡ true) ⊎ (b ≡ true) → a ≡ false → b ≡ true
  squeeze (inl h) k = cc
  squeeze (inr h) k = h

  squeeze' : {a b : Bool} → (a ≡ true) ⊎ (b ≡ true) → b ≡ false → a ≡ true
  squeeze' (inl h) k = h
  squeeze' (inr h) k = cc

  or_true : (a b : Bool) → a || b ≡ true → (a ≡ true) ⊎ (b ≡ true)
  or_true true b h = inl refl
  or_true false b h = inr h

  true_or : (a b : Bool) → b ≡ true → a || b ≡ true
  true_or true b h = refl
  true_or false b h = h

  module _ (order : IsOrder py) where
    pub irreflexive : (a : py.Number) → py.lt a a ≡ false
    irreflexive a = elim (Bool-cases (py.lt a a)) [
      | inl less ↦ order.asymmetric a a less
      | inr other ↦ other
    ]

    pub trans : (a b c : py.Number) → py.lt a b ≡ true → py.lt b c ≡ true → py.lt a c ≡ true
    trans a b c h k = elim (order.between a c b h) [
      | inl done ↦ done
      | inr back ↦ cc (back, order.asymmetric b c k)
    ]

    max_of-lt :
        (x : py.Number) (xs : List py.Number) (z : py.Number)
        → (py.lt (max_of py x xs) z ≡ true) ↔ All (λ a. py.lt a z ≡ true) (x ∷ xs)
    unfolding max_of
    max_of-lt x [] z = (λ h. (h, tt), λ h. h.0)
    max_of-lt x (y ∷ ys) z = elim (Bool-cases (py.lt x y)) [
      | inl less ↦
          let (down, up) = max_of-lt y ys z in
          rw less (
            λ h. let (hy, rest) = down h in (trans x y z less hy, (hy, rest)),
            λ (hx, (hy, rest)). up (hy, rest),
          )
      | inr other ↦
          let (down, up) = max_of-lt x ys z in
          rw other (
            λ h. let (hx, rest) = down h in (hx, (squeeze (order.between x y z hx) other, rest)),
            λ (hx, (hy, rest)). up (hx, rest),
          )
    ]

    lt-min_of :
        (z x : py.Number) (xs : List py.Number)
        → (py.lt z (min_of py x xs) ≡ true) ↔ All (λ a. py.lt z a ≡ true) (x ∷ xs)
    unfolding min_of
    lt-min_of z x [] = (λ h. (h, tt), λ h. h.0)
    lt-min_of z x (y ∷ ys) = elim (Bool-cases (py.lt y x)) [
      | inl less ↦
          let (down, up) = lt-min_of z y ys in
          rw less (
            λ h. let (hy, rest) = down h in (trans z y x hy less, (hy, rest)),
            λ (hx, (hy, rest)). up (hy, rest),
          )
      | inr other ↦
          let (down, up) = lt-min_of z x ys in
          rw other (
            λ h. let (hx, rest) = down h in (hx, (squeeze' (order.between z y x hx) other, rest)),
            λ (hx, (hy, rest)). up (hx, rest),
          )
    ]

    max_of-lt-min_of :
        (x : py.Number) (xs : List py.Number) (y : py.Number) (ys : List py.Number)
        → (py.lt (max_of py x xs) (min_of py y ys) ≡ true) ↔ AllBelow (x ∷ xs) (y ∷ ys)
    max_of-lt-min_of x xs y ys =
        let (down, up) = max_of-lt x xs (min_of py y ys) in
        (
          λ h. All-map (λ a. (lt-min_of a y ys).0) (x ∷ xs) (down h),
          λ h. up (All-map (λ a. (lt-min_of a y ys).1) (x ∷ xs) h),
        )

    -- Of two samples or more on each side, the ranges are found apart exactly when every sample of one
    -- arm is below every sample of the other.
    pub separated_iff :
        (x x' : py.Number) (xs : List py.Number) (y y' : py.Number) (ys : List py.Number)
        → (separated py (x ∷ x' ∷ xs) (y ∷ y' ∷ ys) ≡ some true)
          ↔ (AllBelow (x ∷ x' ∷ xs) (y ∷ y' ∷ ys) ⊎ AllBelow (y ∷ y' ∷ ys) (x ∷ x' ∷ xs))
    unfolding separated
    separated_iff x x' xs y y' ys =
        let (down, up) = max_of-lt-min_of x (x' ∷ xs) y (y' ∷ ys) in
        let (down', up') = max_of-lt-min_of y (y' ∷ ys) x (x' ∷ xs) in
        let p = py.lt (max_of py x (x' ∷ xs)) (min_of py y (y' ∷ ys)) in
        let q = py.lt (max_of py y (y' ∷ ys)) (min_of py x (x' ∷ xs)) in
        (
          λ h. elim (or_true p q (cc h)) [
            | inl lower ↦ inl (down lower)
            | inr upper ↦ inr (down' upper)
          ],
          λ h.
              ap some
                (elim h [ inl lower ↦ rw (up lower) refl | inr upper ↦ true_or p q (up' upper) ]),
        )
