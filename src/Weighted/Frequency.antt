-- ===== src/Weighted/Frequency.antt =====
-- How often the weighted choice returns an element, over all the numbers that can be drawn.
use poseidon_tests.Prelude.{
  ℕ, zero, suc, ◌+◌, ◌<◌, ◌≡◌, refl, ap, ◌∙◌, sym, Bool, List, [], ◌∷◌, ◌++◌, Option, none, some,
  arith, length, get_elem?, replicate, half, if◌then◌else◌,
}
use poseidon_tests.Weighted.{total, pick}
use poseidon_tests.Weighted.Choice.{sum, expand, length-expand, total-sum, pick-expand}

module _ {A : Type 0} (p : A → Bool) where
  abbrev pub hit : Option A → ℕ
  hit none = 0
  hit (some x) = if p x then 1 else 0

  -- How many elements pass the test.
  pub count_if : List A → ℕ
  count_if [] = 0
  count_if (x ∷ xs) = (if p x then 1 else 0) + count_if xs

  -- How many of the `k` numbers from `n` on have an outcome that passes the test.
  pub tally : (ℕ → Option A) → ℕ → ℕ → ℕ
  tally f n zero = 0
  tally f n (suc k) = hit (f n) + tally f (suc n) k

  tally_shift : (f : ℕ → Option A) (n k : ℕ) → tally f (suc n) k ≡ tally (λ i. f (suc i)) n k
  unfolding tally
  tally_shift f n zero = refl
  tally_shift f n (suc k) = ap (λ t. hit (f (suc n)) + t) (tally_shift f (suc n) k)

  tally_congr :
      (f g : ℕ → Option A) (n k : ℕ) → ((i : ℕ) → i < n + k → f i ≡ g i) → tally f n k ≡ tally g n k
  unfolding tally
  tally_congr f g n zero same = refl
  tally_congr f g n (suc k) same =
      rw (same n (omega arith))
        (ap (λ t. hit (g n) + t) (tally_congr f g (suc n) k (λ i h. same i (omega arith))))

  tally-get_elem? : (xs : List A) → tally (get_elem? xs) 0 (length xs) ≡ count_if xs
  unfolding tally count_if
  tally-get_elem? [] = refl
  tally-get_elem? (x ∷ xs) =
      let tail = tally_shift (get_elem? (x ∷ xs)) 0 (length xs) ∙ tally-get_elem? xs in
      ground (arith, tail)

  count_if-append : (xs ys : List A) → count_if (xs ++ ys) ≡ count_if xs + count_if ys
  unfolding count_if
  count_if-append [] ys = omega arith
  count_if-append (x ∷ xs) ys = ground (arith, count_if-append xs ys)

  count_if-replicate : (w : ℕ) (x : A) → count_if (replicate w x) ≡ (if p x then w else 0)
  unfolding count_if
  count_if-replicate zero x = ground arith
  count_if-replicate (suc w) x = ground (arith, count_if-replicate w x)

  module _ (weight : A → ℕ) where
    -- The weight of the elements that pass the test.
    abbrev pub share : List A → ℕ
    share = sum (λ x. if p x then weight x else 0)

    count_if-expand : (xs : List A) → count_if (expand weight xs) ≡ share xs
    unfolding count_if expand sum
    count_if-expand [] = refl
    count_if-expand (x ∷ xs) =
        count_if-append (replicate (weight x) x) (expand weight xs)
        ∙ omega (arith, count_if-replicate (weight x) x, count_if-expand xs)

    -- Of the numbers that can be drawn, as many choose such an element as its weights say.
    pub tally-pick :
        (xs : List A) → sum weight xs < half → tally (pick weight xs) 0 (total weight xs) ≡ share xs
    tally-pick xs h = rw (total-sum weight xs h) (
        tally_congr (pick weight xs) (get_elem? (expand weight xs)) 0 (sum weight xs)
          (λ i k. pick-expand weight xs i h (omega arith))
        ∙ ap (tally (get_elem? (expand weight xs)) 0) (sym (length-expand weight xs))
        ∙ tally-get_elem? (expand weight xs)
        ∙ count_if-expand xs)

-- Two tallies agree if each outcome passes the one test as the other passes the other.
pub tally_hits :
    {A B : Type 0} (p : A → Bool) (q : B → Bool) (f : ℕ → Option A) (g : ℕ → Option B)
    → ((i : ℕ) → hit p (f i) ≡ hit q (g i))
    → (n k : ℕ) → tally p f n k ≡ tally q g n k
unfolding tally
tally_hits p q f g same n zero = refl
tally_hits p q f g same n (suc k) = omega (arith, same n, tally_hits p q f g same (suc n) k)
