-- ===== src/Payload.antt =====
-- internal/payload/payload.go: the bodies and the distribution of their sizes. The generator and the
-- pool are the modules below.
pub mod Generator
pub mod Pool
mod Tests
use poseidon_tests.Prelude.{ℕ, List, [], ◌∷◌, Bytes, codes, ◌⊎◌}
use poseidon_tests.Go.Rand.{Rand}

pub record Item (r : Rand) : Type 0 where
  pub id : ℕ  -- int64
  pub name : Bytes
  pub kind : Bytes
  pub score : r.Float
  pub tags : List Bytes

pub record Body (r : Rand) : Type 0 where
  pub seq : ℕ  -- uint64
  pub scenario : Bytes
  pub items : List (Item r)

-- encoding/json on a `Body`: `Marshal`, `Unmarshal`, and `Decode` of a `Decoder`. An error is on the
-- left.
pub record Json (r : Rand) : Type 1 where
  pub Error : Type 0
  pub marshal : Body r → Error ⊎ Bytes
  pub unmarshal : Bytes → Error ⊎ Body r
  pub decode : Bytes → Error ⊎ Body r

pub record SizeClass : Type 0 where
  pub min_items : ℕ  -- int
  pub max_items : ℕ  -- int
  pub weight : ℕ  -- int

abbrev pub size_class : ℕ → ℕ → ℕ → SizeClass
size_class lo hi w = record { min_items = lo; max_items = hi; weight = w }

abbrev pub default_size_classes : List SizeClass
default_size_classes = size_class 1 8 60 ∷ size_class 20 120 30 ∷ size_class 400 1200 10 ∷ []

abbrev pub kinds : List Bytes
kinds = codes "alpha" ∷ codes "beta" ∷ codes "gamma" ∷ codes "delta" ∷ codes "epsilon" ∷ []

abbrev pub tag_pool : List Bytes
tag_pool =
    codes "red"
    ∷ codes "green"
    ∷ codes "blue"
    ∷ codes "fast"
    ∷ codes "slow"
    ∷ codes "hot"
    ∷ codes "cold"
    ∷ codes "new"
    ∷ []
