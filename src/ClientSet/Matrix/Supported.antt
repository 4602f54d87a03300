-- ===== src/ClientSet/Matrix/Supported.antt =====
-- The constructors of `New` against the pairs of a regime and an arm that it accepts.
use mathlib.Core.Equiv.{IsEquiv, Iso, iso_to_equiv}
use mathlib.Core.HLevel.{Σ_prop_path}
use mathlib.Core.Bool.{Bool-set}
use poseidon_tests.Prelude.{◌≡◌, refl, ap, Bool, true, false, Option, none, some, Bytes}
use poseidon_tests.ClientSet.Matrix.{Impl, new}
use poseidon_tests.ClientSet.Matrix.Cells.{regime_of, arm_of, new_lem}

abbrev is_some {ℓ} : {A : Type ℓ} → Option A → Bool
is_some none = false
is_some (some a) = true

-- A regime and an arm for which `New` does not return the error of its last line.
abbrev pub Supported : Type 0
Supported = (pair : Bytes × Bytes) × (is_some (new pair.0 pair.1) ≡ true)

own_pair : (impl : Impl) → new (regime_of impl) (arm_of impl) ≡ some impl
own_pair impl = (new_lem (regime_of impl) (arm_of impl) impl).1 (refl, refl)

unfoldable pub pair_of : Impl → Supported
unfolding own_pair
pair_of impl = ((regime_of impl, arm_of impl), ap is_some (own_pair impl))

given : (o : Option Impl) → is_some o ≡ true → Impl
given none h = absurd (cc h)
given (some impl) h = impl

some-given : (o : Option Impl) (h : is_some o ≡ true) → o ≡ some (given o h)
unfolding given
some-given none h = cc
some-given (some impl) h = refl

given-some :
    (o : Option Impl) (h : is_some o ≡ true) {impl : Impl} → o ≡ some impl → given o h ≡ impl
unfolding given
given-some none h e = cc
given-some (some x) h e = cc

-- The constructor that `New` chooses for a pair.
unfoldable pub impl_of : Supported → Impl
unfolding given
impl_of (pair, h) = given (new pair.0 pair.1) h

pairs : Iso Impl Supported
unfolding pair_of
pairs = record {
  fun = pair_of;
  inv = λ (pair, h). given (new pair.0 pair.1) h;
  rinv = λ (pair, h).
      let impl = given (new pair.0 pair.1) h in
      let fits = (new_lem pair.0 pair.1 impl).0 (some-given (new pair.0 pair.1) h) in
      Σ_prop_path (λ p. Bool-set _ _) (λ i. (fits.0 i, fits.1 i));
  linv = λ impl. given-some (new (regime_of impl) (arm_of impl)) _ (own_pair impl);
}

-- The constructors are exactly the supported pairs: `New` accepts a regime and an arm exactly if one
-- constructor is for them, no two constructors are for the same pair, and for each pair `New` chooses
-- the constructor of that pair.
pub constructors_exact :
    IsEquiv pair_of
    × ((pair : Supported) → new pair.0.0 pair.0.1 ≡ some (impl_of pair))
    × ((impl : Impl) → new (regime_of impl) (arm_of impl) ≡ some impl)
unfolding pairs impl_of
constructors_exact =
    ((iso_to_equiv pairs).1, λ (pair, h). some-given (new pair.0 pair.1) h, own_pair)
