-- ===== src/Prelude/Lists.antt =====
-- Lists measured and indexed by native numbers, under the library's names.
use Prim.Native.Nat.{ℕ, zero, suc, ◌+◌, ◌-◌, ◌%◌, ◌≤◌, ◌<◌}
use mathlib.Core.Path.{◌≡◌, refl, ap, ◌∙◌, subst}
use mathlib.Core.List.{List, [], ◌∷◌, ◌++◌}
use mathlib.Core.Option.{Option, none, some}
use native.Mathlib.Omega.{arith}
use package.poseidon_tests.Prelude.Tests.{◌==◌, if◌then◌else◌}

module _ {ℓ} {A : Type ℓ} where
  abbrev pub length : List A → ℕ
  length [] = 0
  length (x ∷ xs) = suc (length xs)

  abbrev pub get_elem? : List A → ℕ → Option A
  get_elem? [] i = none
  get_elem? (x ∷ xs) zero = some x
  get_elem? (x ∷ xs) (suc i) = get_elem? xs i

  -- `xs[len(xs)-1]`
  abbrev pub get_last? : List A → Option A
  get_last? [] = none
  get_last? (x ∷ []) = some x
  get_last? (x ∷ y ∷ ys) = get_last? (y ∷ ys)

  abbrev pub replicate : ℕ → A → List A
  replicate zero a = []
  replicate (suc n) a = a ∷ replicate n a

  abbrev pub drop : ℕ → List A → List A
  drop zero xs = xs
  drop (suc n) [] = []
  drop (suc n) (x ∷ xs) = drop n xs

  pub length-append : (xs ys : List A) → length (xs ++ ys) ≡ length xs + length ys
  length-append [] ys = omega arith
  length-append (x ∷ xs) ys = omega (arith, length-append xs ys)

  pub length-replicate : (n : ℕ) (a : A) → length (replicate n a) ≡ n
  length-replicate zero a = refl
  length-replicate (suc n) a = ap suc (length-replicate n a)

  pub get_elem?-replicate_append :
      (w n : ℕ) (a : A) (ys : List A) → n < w → get_elem? (replicate w a ++ ys) n ≡ some a
  get_elem?-replicate_append zero n a ys h = elim h [ ]
  get_elem?-replicate_append (suc w) zero a ys h = refl
  get_elem?-replicate_append (suc w) (suc n) a ys h =
      get_elem?-replicate_append w n a ys (omega arith)

  pub get_elem?-append_right :
      (xs ys : List A) (n : ℕ)
      → length xs ≤ n
      → get_elem? (xs ++ ys) n ≡ get_elem? ys (n - length xs)
  get_elem?-append_right [] ys n h = ap (get_elem? ys) (omega arith)
  get_elem?-append_right (x ∷ xs) ys zero h = absurd (omega arith)
  get_elem?-append_right (x ∷ xs) ys (suc n) h =
      get_elem?-append_right xs ys n (omega arith) ∙ ap (get_elem? ys) (omega arith)

  pub get_elem?-some : (xs : List A) (n : ℕ) → n < length xs → (a : A) × (get_elem? xs n ≡ some a)
  get_elem?-some [] n h = elim h [ ]
  get_elem?-some (x ∷ xs) zero h = (x, refl)
  get_elem?-some (x ∷ xs) (suc n) h = get_elem?-some xs n (omega arith)

  pub get_elem?-replicate : (w n : ℕ) (a : A) {b : A} → get_elem? (replicate w a) n ≡ some b → a ≡ b
  get_elem?-replicate zero n a h = cc
  get_elem?-replicate (suc w) zero a h = cc
  get_elem?-replicate (suc w) (suc n) a h = get_elem?-replicate w n a h

module _ {ℓ} {A : Type ℓ} where
  -- `xs[i%n]` on words: a division by zero or an index out of range is a panic.
  abbrev pub cycle : List A → ℕ → ℕ → Option A
  cycle xs n i = if n == 0 then none else get_elem? xs (i % n)

  pub cycle-get_elem? : (xs : List A) (n i : ℕ) → 0 < n → cycle xs n i ≡ get_elem? xs (i % n)
  cycle-get_elem? xs n i h = ground arith

module _ {ℓ κ} {A : Type ℓ} (P : A → Type κ) where
  abbrev pub All : List A → Type κ
  All [] = Unit
  All (x ∷ xs) = P x × All xs

  pub All-append : (xs ys : List A) → All xs → All ys → All (xs ++ ys)
  All-append [] ys _ hy = hy
  All-append (x ∷ xs) ys (px, hx) hy = (px, All-append xs ys hx hy)

  pub All-get_elem? : (xs : List A) (i : ℕ) {x : A} → All xs → get_elem? xs i ≡ some x → P x
  All-get_elem? [] i h e = cc
  All-get_elem? (y ∷ ys) zero {x} h e = let same : y ≡ x = cc in subst P same h.0
  All-get_elem? (y ∷ ys) (suc i) h e = All-get_elem? ys i h.1 e

module _ {ℓ κ κ'} {A : Type ℓ} {P : A → Type κ} {Q : A → Type κ'} where
  pub All-map : ((x : A) → P x → Q x) → (xs : List A) → All P xs → All Q xs
  All-map f [] h = tt
  All-map f (x ∷ xs) h = (f x h.0, All-map f xs h.1)
