-- ===== src/Weighted/Choice.antt =====
-- What the weighted choice returns, and how often each element is chosen.
use poseidon_tests.Prelude.{
  ℕ, ◌+◌, ◌-◌, ◌<◌, suc, get_last?, Option-cases, some, ◌≡◌, refl, ap, ◌∙◌, sym, true, false, List,
  [], ◌∷◌, ◌++◌, foldl, arith, length, get_elem?, replicate, length-append, length-replicate,
  get_elem?-replicate_append, get_elem?-append_right, get_elem?-some, add64, sub64, is_neg, half,
  inl, inr, Bool-cases, le→leb, lt→leb, ltb,
}
use poseidon_tests.Weighted.{total, choose, pick}

module _ {A : Type 0} (weight : A → ℕ) where
  -- The sum of the weights, with no bound.
  unfoldable pub sum : List A → ℕ
  sum [] = 0
  sum (x ∷ xs) = weight x + sum xs

  -- Each element as often as its weight says.
  unfoldable pub expand : List A → List A
  expand [] = []
  expand (x ∷ xs) = replicate (weight x) x ++ expand xs

  pub length-expand : (xs : List A) → length (expand xs) ≡ sum xs
  unfolding expand sum
  length-expand [] = refl
  length-expand (x ∷ xs) =
      length-append (replicate (weight x) x) (expand xs)
      ∙ omega (arith, length-expand xs, length-replicate (weight x) x)

  foldl-sum :
      (xs : List A) (t : ℕ)
      → t + sum xs < half
      → foldl (λ t x. add64 t (weight x)) t xs ≡ t + sum xs
  unfolding sum
  foldl-sum [] t h = omega arith
  foldl-sum (x ∷ xs) t h =
      let small : add64 t (weight x) ≡ t + weight x = omega arith in
      rw small (foldl-sum xs (t + weight x) (omega arith) ∙ omega arith)

  pub total-sum : (xs : List A) → sum xs < half → total weight xs ≡ sum xs
  unfolding total
  total-sum xs h = foldl-sum xs 0 (omega arith) ∙ omega arith

  choose-expand :
      (xs : List A) (n : ℕ)
      → sum xs < half
      → n < sum xs
      → choose weight xs n ≡ get_elem? (expand xs) n
  unfolding choose sum expand
  choose-expand [] n h k = refl
  choose-expand (x ∷ xs) n h k = elim (Bool-cases (ltb n (weight x))) [
    | inl here ↦
        let low : is_neg (sub64 n (weight x)) ≡ true = le→leb _ _ (ground arith) in
        rw low (sym (get_elem?-replicate_append (weight x) n x (expand xs) (ground arith)))
    | inr later ↦
        let step : sub64 n (weight x) ≡ n - weight x = ground arith in
        let high : is_neg (sub64 n (weight x)) ≡ false = lt→leb _ _ (ground arith) in
        let width = length-replicate (weight x) x in
        rw high (
          ap (choose weight xs) step
          ∙ choose-expand xs (n - weight x) (omega arith) (ground arith)
          ∙ ap (get_elem? (expand xs)) (omega (arith, width))
          ∙ sym (
              get_elem?-append_right (replicate (weight x) x) (expand xs) n
                (ground (arith, width))))
  ]

  -- A number below the total weight falls on the element whose share it lies in.
  pub pick-expand :
      (xs : List A) (n : ℕ)
      → sum xs < half
      → n < sum xs
      → pick weight xs n ≡ get_elem? (expand xs) n
  unfolding pick
  pick-expand xs n h k =
      let (x, found) = get_elem?-some (expand xs) n (omega (arith, length-expand xs)) in
      rw (choose-expand xs n h k, found) refl

  -- What is picked stands in the list.
  choose-get_elem? :
      (xs : List A) (n : ℕ) {x : A}
      → choose weight xs n ≡ some x
      → (i : ℕ) × (get_elem? xs i ≡ some x)
  unfolding choose
  choose-get_elem? [] n h = cc
  choose-get_elem? (y ∷ ys) n h = elim (Bool-cases (is_neg (sub64 n (weight y)))) [
    | inl here ↦ (0, rw here at h)
    | inr later ↦
        let (i, found) = choose-get_elem? ys (sub64 n (weight y)) (rw later at h) in (suc i, found)
  ]

  get_last?-get_elem? :
      (xs : List A) {x : A} → get_last? xs ≡ some x → (i : ℕ) × (get_elem? xs i ≡ some x)
  get_last?-get_elem? [] h = cc
  get_last?-get_elem? (y ∷ []) h = (0, h)
  get_last?-get_elem? (y ∷ z ∷ zs) h =
      let (i, found) = get_last?-get_elem? (z ∷ zs) h in (suc i, found)

  pub pick-get_elem? :
      (xs : List A) (n : ℕ) {x : A}
      → pick weight xs n ≡ some x
      → (i : ℕ) × (get_elem? xs i ≡ some x)
  unfolding pick
  pick-get_elem? xs n h = elim (Option-cases (choose weight xs n)) [
    | inl past ↦ get_last?-get_elem? xs (rw past at h)
    | inr (y, chosen) ↦ choose-get_elem? xs n (chosen ∙ (rw chosen at h))
  ]

  -- A number below the total weight picks something.
  pub pick-some :
      (xs : List A) (n : ℕ) → sum xs < half → n < sum xs → (x : A) × (pick weight xs n ≡ some x)
  pick-some xs n h k =
      let (x, found) = get_elem?-some (expand xs) n (omega (arith, length-expand xs)) in
      (x, pick-expand xs n h k ∙ found)
