-- ===== src/Go/Outcome.antt =====
-- The end of a Go call that returns `(value, error)`: a value, an error, or a panic.
use poseidon_tests.Prelude.{
  ℕ, ◌<◌, ◌⊎◌, inl, inr, List, Option, none, some, ◌≡◌, refl, subst, length, get_elem?,
  get_elem?-some,
}

pub data Outcome (E A : Type 0) : Type 0 where
  ok : A → Outcome E A
  err : E → Outcome E A
  panic : Outcome E A

-- An error is returned at once, and a panic goes on.
infixl 5 ◌>>=◌
abbrev pub ◌>>=◌ : {E A B : Type 0} → Outcome E A → (A → Outcome E B) → Outcome E B
ok a >>= f = f a
err e >>= f = err e
panic >>= f = panic

abbrev pub or_panic : {E A : Type 0} → Option A → Outcome E A
or_panic none = panic
or_panic (some a) = ok a

abbrev pub returned : {E A : Type 0} → E ⊎ A → Outcome E A
returned (inl e) = err e
returned (inr a) = ok a

-- The call ends with a value that satisfies `P` or with an error that satisfies `Q`, and not by a
-- panic.
pub data Ends {E A : Type 0} (P : A → Type 0) (Q : E → Type 0) : Outcome E A → Type 0 where
  by_value : {a : A} → P a → Ends P Q (ok a)
  by_error : {e : E} → Q e → Ends P Q (err e)

module _ {E A B : Type 0} {P : A → Type 0} {R : B → Type 0} {Q : E → Type 0} where
  pub Ends-bind :
      {m : Outcome E A} {f : A → Outcome E B}
      → Ends P Q m
      → ((a : A) → P a → Ends R Q (f a))
      → Ends R Q (m >>= f)
  Ends-bind (by_value {a} h) k = k a h
  Ends-bind (by_error h) k = by_error h

module _ {E A B : Type 0} {P : A → Type 0} {S Q : E → Type 0} {R : B → Type 0} where
  -- The same, with a condition on the errors of the first call that is weakened.
  pub Ends-or :
      {m : Outcome E A} {f : A → Outcome E B}
      → Ends P S m
      → ((a : A) → P a → Ends R Q (f a))
      → ((e : E) → S e → Q e)
      → Ends R Q (m >>= f)
  Ends-or (by_value {a} h) k l = k a h
  Ends-or (by_error {e} h) k l = by_error (l e h)

module _ {E A : Type 0} {P : A → Type 0} {Q : E → Type 0} where
  pub Ends-ok : {m : Outcome E A} {a : A} → Ends P Q m → m ≡ ok a → P a
  Ends-ok {a} (by_value {a = b} h) e = let same : b ≡ a = cc in subst P same h
  Ends-ok (by_error h) e = cc

module _ {E A : Type 0} {Q : E → Type 0} where
  -- Reading inside a list does not panic.
  pub Ends-get_elem? :
      (xs : List A) (i : ℕ)
      → i < length xs
      → Ends (λ x. get_elem? xs i ≡ some x) Q (or_panic {E = E} (get_elem? xs i))
  Ends-get_elem? xs i h =
      let (x, found) = get_elem?-some xs i h in rw (found, or_panic) (by_value refl)
