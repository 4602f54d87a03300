-- ===== src/ClientSet/Matrix.antt =====
-- The regimes, the arms and `New` of internal/clientset/clientset.go. `New` is modelled as the choice
-- of the constructor; an error of the constructor itself is the library's.
pub mod Cells
pub mod Supported
use poseidon_tests.Prelude.{
  ◌&&◌, List, [], ◌∷◌, Option, none, some, Bytes, codes, text_eq, if◌then◌else◌,
}
use poseidon_tests.Go.Strings.{to_lower}

abbrev pub regime_h1 : Bytes
regime_h1 = codes "h1"

abbrev pub regime_h2 : Bytes
regime_h2 = codes "h2"

abbrev pub regime_h3 : Bytes
regime_h3 = codes "h3"

abbrev pub regime_grpc : Bytes
regime_grpc = codes "grpc"

abbrev pub arm_poseidon : Bytes
arm_poseidon = codes "poseidon"

abbrev pub arm_standard : Bytes
arm_standard = codes "standard"

abbrev pub arm_standard_pooled : Bytes
arm_standard_pooled = codes "standard-pooled"

unfoldable pub regimes : List Bytes
regimes = regime_h1 ∷ regime_h2 ∷ regime_h3 ∷ regime_grpc ∷ []

unfoldable pub arms : List Bytes
arms = arm_poseidon ∷ arm_standard ∷ []

unfoldable pub parseable_arms : List Bytes
parseable_arms = arm_poseidon ∷ arm_standard ∷ arm_standard_pooled ∷ []

-- The loop of the two parsers.
unfoldable pub find : Bytes → List Bytes → Option Bytes
find s [] = none
find s (x ∷ xs) = let rest = find s xs in if text_eq x (to_lower s) then some x else rest

unfoldable pub parse_regime : Bytes → Option Bytes
parse_regime s = find s regimes

unfoldable pub parse_arm : Bytes → Option Bytes
parse_arm s = find s parseable_arms

-- The constructors.
pub data Impl : Type 0 where
  poseidon_h1 std_h1 poseidon_h2 std_h2 poseidon_h3 quic_go_h3 poseidon_grpc grpc_go : Impl
  std_h1_pooled std_h2_pooled : Impl

-- The cases of `New`, in order.
abbrev pub cases : List (Bytes × Bytes × Impl)
cases =
    (regime_h1, arm_poseidon, poseidon_h1)
    ∷ (regime_h1, arm_standard, std_h1)
    ∷ (regime_h2, arm_poseidon, poseidon_h2)
    ∷ (regime_h2, arm_standard, std_h2)
    ∷ (regime_h3, arm_poseidon, poseidon_h3)
    ∷ (regime_h3, arm_standard, quic_go_h3)
    ∷ (regime_grpc, arm_poseidon, poseidon_grpc)
    ∷ (regime_grpc, arm_standard, grpc_go)
    ∷ (regime_h1, arm_standard_pooled, std_h1_pooled)
    ∷ (regime_h2, arm_standard_pooled, std_h2_pooled)
    ∷ []

unfoldable pub first_case : Bytes → Bytes → List (Bytes × Bytes × Impl) → Option Impl
first_case regime arm [] = none
first_case regime arm ((r, a, impl) ∷ rest) =
    let later = first_case regime arm rest in
    if text_eq regime r && text_eq arm a then some impl else later

unfoldable pub new : Bytes → Bytes → Option Impl
new regime arm = first_case regime arm cases
