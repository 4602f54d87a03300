-- ===== src/Comparison/Loading/Names.antt =====
-- The cell that the name of a file stands for.
use mathlib.Core.List.{Memᴰ}
use mathlib.Core.List.Memᴰ
use poseidon_tests.Prelude.{
  ◌≡◌, refl, ap, subst, Bool, true, false, ◌||◌, List, [], ◌∷◌, ◌++◌, some, none, Bytes, text_eq,
  text_eq_iff, map,
}
use poseidon_tests.Comparison.Cells.{regimes, arms, cells, is_known, contains, flat_map}
use poseidon_tests.Comparison.Loading.{rpartition, behind_dash}

behind_dash-append :
    (r a : Bytes) → behind_dash a ≡ none → behind_dash (r ++ (b'-' ∷ a)) ≡ some (r, a)
unfolding behind_dash
behind_dash-append [] a h = rw h refl
behind_dash-append (c ∷ r) a h = rw (behind_dash-append r a h) refl

no_dash : (a : Bytes) → Memᴰ a arms → behind_dash a ≡ none
unfolding behind_dash arms
no_dash a (Memᴰ.head e) = rw e refl
no_dash a (Memᴰ.tail (Memᴰ.head e)) = rw e refl
no_dash a (Memᴰ.tail (Memᴰ.tail m)) = elim m [ ]

contains-Mem : (k : Bytes) (ks : List Bytes) → Memᴰ k ks → contains k ks ≡ true
contains-Mem k [] m = elim m [ ]
contains-Mem k (j ∷ js) (Memᴰ.head e) = rw ((text_eq_iff k j).1 e) refl
contains-Mem k (j ∷ js) (Memᴰ.tail m) = rw (contains-Mem k js m) (or_true (text_eq k j))
  where
    or_true : (b : Bool) → b || true ≡ true
    or_true true = refl
    or_true false = refl

map-Mem {ℓ κ} :
    {A : Type ℓ} {B : Type κ} (f : A → B) {x : A} {xs : List A} → Memᴰ x xs → Memᴰ (f x) (map f xs)
map-Mem f (Memᴰ.head e) = Memᴰ.head (ap f e)
map-Mem f (Memᴰ.tail m) = Memᴰ.tail (map-Mem f m)

pub flat_map-Mem {ℓ κ} :
    {A : Type ℓ} {B : Type κ} (f : A → List B) {b : B} {x : A} {xs : List A}
    → Memᴰ x xs
    → Memᴰ b (f x)
    → Memᴰ b (flat_map f xs)
flat_map-Mem f {xs = []} m there = elim m [ ]
flat_map-Mem f {b} {xs = y ∷ ys} (Memᴰ.head e) there =
    Memᴰ.append_left (flat_map f ys) (subst (λ z. Memᴰ b (f z)) e there)
flat_map-Mem f {xs = y ∷ ys} (Memᴰ.tail m) there = Memᴰ.append_right (f y) (flat_map-Mem f m there)

module _ (regime arm : Bytes) (r : Memᴰ regime regimes) (a : Memᴰ arm arms) where
  -- The name that scripts/run.sh gives to a report is read back as its cell.
  pub rpartition_name : rpartition (regime ++ (b'-' ∷ arm)) ≡ (regime, arm)
  unfolding rpartition
  rpartition_name = rw (behind_dash-append regime arm (no_dash arm a), rpartition) refl

  pub known : is_known (regime, arm) ≡ true
  unfolding is_known
  known = rw (contains-Mem regime regimes r) (contains-Mem arm arms a)

  pub cells-Mem : Memᴰ (regime, arm) cells
  unfolding cells
  cells-Mem = flat_map-Mem (λ g. map (λ b. (g, b)) arms) r (map-Mem (λ b. (regime, b)) a)
