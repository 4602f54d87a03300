-- ===== src/ClientSet/Matrix/Cells.antt =====
-- What `New` and the parsers choose.
use poseidon_tests.Prelude.{
  All, All-get_elem?, ℕ, ◌≡◌, refl, sym, ap, ◌∙◌, Bool, true, false, ◌&&◌, List, [], ◌∷◌, Option,
  some, Bytes, ◌⊎◌, inl, inr, ◌↔◌, text_eq, text_eq_iff, if◌then◌else◌, get_elem?, zero, suc,
}
use poseidon_tests.Go.Strings.{to_lower}
use poseidon_tests.ClientSet.Matrix.{
  regime_h1, regime_h2, regime_h3, regime_grpc, arm_poseidon, arm_standard, arm_standard_pooled,
  regimes, parseable_arms, find, parse_regime, parse_arm, Impl, poseidon_h1, std_h1, poseidon_h2,
  std_h2, poseidon_h3, quic_go_h3, poseidon_grpc, grpc_go, std_h1_pooled, std_h2_pooled, cases,
  first_case, new,
}

-- The regime and the arm that an implementation stands for.
unfoldable pub regime_of : Impl → Bytes
regime_of poseidon_h1 = regime_h1
regime_of std_h1 = regime_h1
regime_of std_h1_pooled = regime_h1
regime_of poseidon_h2 = regime_h2
regime_of std_h2 = regime_h2
regime_of std_h2_pooled = regime_h2
regime_of poseidon_h3 = regime_h3
regime_of quic_go_h3 = regime_h3
regime_of poseidon_grpc = regime_grpc
regime_of grpc_go = regime_grpc

unfoldable pub arm_of : Impl → Bytes
arm_of poseidon_h1 = arm_poseidon
arm_of poseidon_h2 = arm_poseidon
arm_of poseidon_h3 = arm_poseidon
arm_of poseidon_grpc = arm_poseidon
arm_of std_h1_pooled = arm_standard_pooled
arm_of std_h2_pooled = arm_standard_pooled
arm_of _ = arm_standard

-- A list of cases that say what their implementations stand for.
Fits : List (Bytes × Bytes × Impl) → Type 0
Fits [] = Unit
Fits ((r, a, impl) ∷ rest) = (regime_of impl ≡ r) × (arm_of impl ≡ a) × Fits rest

chosen_or_later :
    (b c : Bool) (x impl : Impl) (later : Option Impl)
    → (if b && c then some x else later) ≡ some impl
    → ((b ≡ true) × (c ≡ true) × (x ≡ impl)) ⊎ (later ≡ some impl)
chosen_or_later true true x impl later e = inl (refl, refl, cc)
chosen_or_later true false x impl later e = inr e
chosen_or_later false c x impl later e = inr e

first_case-Fits :
    (regime arm : Bytes) (cs : List (Bytes × Bytes × Impl)) (impl : Impl)
    → Fits cs
    → first_case regime arm cs ≡ some impl
    → (regime_of impl ≡ regime) × (arm_of impl ≡ arm)
unfolding first_case Fits
first_case-Fits regime arm [] impl fits e = cc
first_case-Fits regime arm ((r, a, x) ∷ rest) impl fits e =
    elim (chosen_or_later (text_eq regime r) (text_eq arm a) x impl (first_case regime arm rest)
      e) [
        | inl (asked, asked', same) ↦ (
          ap regime_of (sym same) ∙ fits.0 ∙ sym ((text_eq_iff regime r).0 asked),
          ap arm_of (sym same) ∙ fits.1 ∙ sym ((text_eq_iff arm a).0 asked'),
        )
        | inr later ↦ first_case-Fits regime arm rest impl fits.2 later
      ]

found : (impl : Impl) → first_case (regime_of impl) (arm_of impl) cases ≡ some impl
unfolding first_case regime_of arm_of
found poseidon_h1 = refl
found std_h1 = refl
found poseidon_h2 = refl
found std_h2 = refl
found poseidon_h3 = refl
found quic_go_h3 = refl
found poseidon_grpc = refl
found grpc_go = refl
found std_h1_pooled = refl
found std_h2_pooled = refl

cases-Fits : Fits cases
unfolding Fits regime_of arm_of
cases-Fits = (
  refl,
  refl,
  (
    refl,
    refl,
    (
      refl,
      refl,
      (
        refl,
        refl,
        (refl, refl, (refl, refl, (refl, refl, (refl, refl, (refl, refl, (refl, refl, tt)))))),
      ),
    ),
  ),
)

-- What `New` chooses stands for the regime and the arm that were asked for, and every implementation
-- is chosen for its own pair.
pub new_lem :
    (regime arm : Bytes) (impl : Impl)
    → (new regime arm ≡ some impl) ↔ ((regime_of impl ≡ regime) × (arm_of impl ≡ arm))
unfolding new
new_lem regime arm impl = (
  λ e. first_case-Fits regime arm cases impl cases-Fits e,
  λ (p, q).
      ap (λ r. first_case r arm cases) (sym p)
      ∙ ap (λ a. first_case (regime_of impl) a cases) (sym q)
      ∙ found impl,
)

here_or_later :
    (b : Bool) (y x : Bytes) (later : Option Bytes)
    → (if b then some y else later) ≡ some x
    → ((b ≡ true) × (y ≡ x)) ⊎ (later ≡ some x)
here_or_later true y x later e = inl (refl, cc)
here_or_later false y x later e = inr e

find-some :
    (s : Bytes) (xs : List Bytes) {x : Bytes}
    → find s xs ≡ some x
    → (i : ℕ) × (get_elem? xs i ≡ some x) × (x ≡ to_lower s)
unfolding find
find-some s [] e = cc
find-some s (y ∷ ys) {x} e = elim (here_or_later (text_eq y (to_lower s)) y x (find s ys) e) [
  | inl (here, same) ↦ (zero, ap some same, sym same ∙ (text_eq_iff y (to_lower s)).0 here)
  | inr later ↦ let (i, listed, lower) = find-some s ys later in (suc i, listed, lower)
]

IsBuilt : Bytes → Bytes → Type 0
IsBuilt r a = ((impl : Impl) × (new r a ≡ some impl)) ⊎ (a ≡ arm_standard_pooled)

All-IsBuilt : All (λ r. All (IsBuilt r) parseable_arms) regimes
unfolding IsBuilt parseable_arms regimes new first_case
All-IsBuilt = (
  (inl (poseidon_h1, refl), (inl (std_h1, refl), (inr refl, tt))),
  (
    (inl (poseidon_h2, refl), (inl (std_h2, refl), (inr refl, tt))),
    (
      (inl (poseidon_h3, refl), (inl (quic_go_h3, refl), (inr refl, tt))),
      ((inl (poseidon_grpc, refl), (inl (grpc_go, refl), (inr refl, tt))), tt),
    ),
  ),
)

-- The parsers read a name in any case, and `New` has an implementation for what they accept, unless
-- the arm is the diagnostic one.
pub parsed_cell :
    (s t : Bytes) {r a : Bytes}
    → parse_regime s ≡ some r
    → parse_arm t ≡ some a
    → (r ≡ to_lower s)
      × (a ≡ to_lower t)
      × (((impl : Impl) × (new r a ≡ some impl)) ⊎ (a ≡ arm_standard_pooled))
unfolding parse_regime parse_arm IsBuilt
parsed_cell s t {r} {a} p q =
    let (i, regime_listed, regime_lower) = find-some s regimes p in
    let (j, arm_listed, arm_lower) = find-some t parseable_arms q in
    let row =
      All-get_elem? (λ r. All (IsBuilt r) parseable_arms) regimes i All-IsBuilt regime_listed in
    (regime_lower, arm_lower, All-get_elem? (IsBuilt r) parseable_arms j row arm_listed)
