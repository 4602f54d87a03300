-- ===== src/ClientSet/ResponsePool/Copies.antt =====
-- Lists of objects and of calls that have them, counted, and stores taken apart.
use poseidon_tests.Prelude.{ℕ, ◌+◌, ◌≡◌, refl, List, [], ◌∷◌, ◌++◌, ◌==◌, if◌then◌else◌, arith, All}
use poseidon_tests.ClientSet.Adapters.{PoseidonResponse}
use poseidon_tests.ClientSet.ResponsePool.{Taken, store}

-- How often object `i` is in the pool, and how often a call has it.
unfoldable pub copies : ℕ → List ℕ → ℕ
copies i [] = 0
copies i (o ∷ os) = (if i == o then 1 else 0) + copies i os

unfoldable pub holders : ℕ → List Taken → ℕ
holders i [] = 0
holders i (h ∷ hs) = (if i == h.object then 1 else 0) + holders i hs

pub copies-append :
    (i o : ℕ) (xs ys : List ℕ)
    → copies i (xs ++ (o ∷ ys)) ≡ (if i == o then 1 else 0) + copies i (xs ++ ys)
unfolding copies
copies-append i o [] ys = refl
copies-append i o (x ∷ xs) ys = let ih = copies-append i o xs ys in omega arith

pub holders-append :
    (i : ℕ) (h : Taken) (xs ys : List Taken)
    → holders i (xs ++ (h ∷ ys)) ≡ (if i == h.object then 1 else 0) + holders i (xs ++ ys)
unfolding holders
holders-append i h [] ys = refl
holders-append i h (x ∷ xs) ys = let ih = holders-append i h xs ys in omega arith

pub store-other :
    (o x : ℕ) (resp : PoseidonResponse) (m : ℕ → PoseidonResponse)
    → ◌≡◌ {A = ℕ} (if o == x then 1 else 0) 0
    → store o resp m x ≡ m x
unfolding store
store-other o x resp m h = ground arith

pub store-here :
    (o : ℕ) (resp : PoseidonResponse) (m : ℕ → PoseidonResponse) → store o resp m o ≡ resp
unfolding store
store-here o resp m = ground arith

module _ {ℓ κ} {A : Type ℓ} (P : A → Type κ) where
  pub All-apart : (xs ys : List A) {x : A} → All P (xs ++ (x ∷ ys)) → P x × All P (xs ++ ys)
  All-apart [] ys h = h
  All-apart (z ∷ xs) ys h = let (here, rest) = All-apart xs ys h.1 in (here, (h.0, rest))

  pub All-joined : (xs ys : List A) {x : A} → P x → All P (xs ++ ys) → All P (xs ++ (x ∷ ys))
  All-joined [] ys here rest = (here, rest)
  All-joined (z ∷ xs) ys here rest = (rest.0, All-joined xs ys here rest.1)
