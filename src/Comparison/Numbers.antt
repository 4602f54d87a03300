-- ===== src/Comparison/Numbers.antt =====
-- Python's `float`, and the differences of its `datetime`, as a parameter; with what the script makes
-- of them: `max`, `min`, `sum`, `mean`, `cv_pct` and `relative_gap_pct`.
use poseidon_tests.Prelude.{
  ℕ, Bool, List, [], ◌∷◌, foldl, map, Option, none, some, Bytes, if◌then◌else◌, length, ◌-◌,
}

pub record Numbers : Type 1 where
  pub Number : Type 0
  -- `float(n)`
  pub of_nat : ℕ → Number
  -- the literal `num / den`
  pub lit : (num den : ℕ) → Number
  pub add : Number → Number → Number
  pub sub : Number → Number → Number
  pub mul : Number → Number → Number
  pub div : Number → Number → Number
  pub abs : Number → Number
  -- `x ** 0.5`
  pub sqrt : Number → Number
  -- `<`
  pub lt : Number → Number → Bool
  -- `<=`
  pub le : Number → Number → Bool
  -- `== 0.0`
  pub is_zero : Number → Bool
  -- `datetime.fromisoformat` of an end and a start, and the `total_seconds` of their difference;
  -- `none` is its `ValueError`
  pub seconds_between : Bytes → Bytes → Option Number

module _ (py : Numbers) where
  abbrev pub zero_number : py.Number
  zero_number = py.of_nat 0

  -- `max(values)` and `min(values)`, of a value and more of them.
  unfoldable pub max_of : py.Number → List py.Number → py.Number
  max_of x [] = x
  max_of x (y ∷ ys) = max_of (if py.lt x y then y else x) ys

  unfoldable pub min_of : py.Number → List py.Number → py.Number
  min_of x [] = x
  min_of x (y ∷ ys) = min_of (if py.lt y x then y else x) ys

  abbrev pub total_of : List py.Number → py.Number
  total_of vs = foldl py.add zero_number vs

  unfoldable pub mean : List py.Number → Option py.Number
  mean [] = none
  mean (v ∷ vs) = some (py.div (total_of (v ∷ vs)) (py.of_nat (length (v ∷ vs))))

  -- The spread of two values or more around their mean.
  abbrev spread : List py.Number → py.Number → Option py.Number
  spread vs m =
      if py.is_zero m
      then none
      else (let square = λ (v : py.Number). py.mul (py.sub v m) (py.sub v m) in
          let var = py.div (total_of (map square vs)) (py.of_nat (length vs - 1)) in
          some (py.mul (py.div (py.sqrt var) (py.abs m)) (py.lit 100 1)))

  unfoldable pub cv_pct : List py.Number → Option py.Number
  unfolding mean
  cv_pct [] = none
  cv_pct (v ∷ []) = none
  cv_pct (v ∷ w ∷ vs) = elim (mean (v ∷ w ∷ vs)) [ none ↦ none | some m ↦ spread (v ∷ w ∷ vs) m ]

  -- The gap of two values, as a percentage of the larger.
  unfoldable pub gap_pct : py.Number → py.Number → py.Number
  unfolding max_of
  gap_pct a b =
      let scale = max_of (py.abs a) (py.abs b ∷ []) in
      if py.is_zero scale
      then zero_number
      else py.mul (py.div (py.abs (py.sub a b)) scale) (py.lit 100 1)

  unfoldable pub relative_gap_pct : Option py.Number → Option py.Number → Option py.Number
  unfolding gap_pct
  relative_gap_pct none b = none
  relative_gap_pct (some a) none = none
  relative_gap_pct (some a) (some b) = some (gap_pct a b)
