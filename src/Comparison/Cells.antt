-- ===== src/Comparison/Cells.antt =====
-- The cells of the comparison: the pairs of a regime and an arm.
use poseidon_tests.Prelude.{
  Bool, false, ◌&&◌, ◌||◌, List, [], ◌∷◌, ◌++◌, Bytes, codes, text_eq, map,
}
use poseidon_tests.Comparison.Dict.{Cell}

-- The keys of `REGIMES`.
unfoldable pub regimes : List Bytes
regimes = codes "h1" ∷ codes "h2" ∷ codes "h3" ∷ codes "grpc" ∷ []

abbrev pub poseidon : Bytes
poseidon = codes "poseidon"

abbrev pub standard : Bytes
standard = codes "standard"

unfoldable pub arms : List Bytes
arms = poseidon ∷ standard ∷ []

abbrev pub flat_map {ℓ κ} : {A : Type ℓ} {B : Type κ} → (A → List B) → List A → List B
flat_map f [] = []
flat_map f (x ∷ xs) = f x ++ flat_map f xs

-- The loop over the regimes around the loop over the arms.
unfoldable pub cells : List Cell
unfolding regimes arms
cells = flat_map (λ r. map (λ a. (r, a)) arms) regimes

abbrev pub contains : Bytes → List Bytes → Bool
contains k [] = false
contains k (j ∷ js) = text_eq k j || contains k js

-- `regime in known_regimes and arm in ARMS`
unfoldable pub is_known : Cell → Bool
unfolding regimes arms
is_known (r, a) = contains r regimes && contains a arms
