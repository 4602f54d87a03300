-- ===== src/Scenario.antt =====
-- internal/scenario/scenario.go: the catalogue of calls and the weights of the mixes. The number
-- printer, the path pool and the random mix are the modules below.
pub mod Itoa
pub mod PathPool
pub mod Mix
mod Tests
use poseidon_tests.Prelude.{
  ℕ, Bool, true, false, List, [], ◌∷◌, Bytes, codes, text_eq, if◌then◌else◌,
}
use poseidon_tests.Api.{route_echo, route_fetch, route_ingest, route_stream, route_not_found}

pub data Kind : Type 0 where
  echo fetch ingest stream not_found : Kind

-- `==` on kinds.
abbrev pub is_kind : Kind → Kind → Bool
is_kind echo echo = true
is_kind fetch fetch = true
is_kind ingest ingest = true
is_kind stream stream = true
is_kind not_found not_found = true
is_kind _ _ = false

pub record Scenario : Type 0 where
  pub kind : Kind
  pub name : Bytes
  pub method : Bytes
  pub path : Bytes
  pub has_body : Bool

unfoldable pub all : Kind → Scenario
all echo = record {
  kind = echo;
  name = codes "echo";
  method = codes "POST";
  path = route_echo;
  has_body = true;
}
all fetch = record {
  kind = fetch;
  name = codes "fetch";
  method = codes "GET";
  path = route_fetch;
  has_body = false;
}
all ingest = record {
  kind = ingest;
  name = codes "ingest";
  method = codes "POST";
  path = route_ingest;
  has_body = true;
}
all stream = record {
  kind = stream;
  name = codes "stream";
  method = codes "GET";
  path = route_stream;
  has_body = false;
}
all not_found = record {
  kind = not_found;
  name = codes "notfound";
  method = codes "GET";
  path = route_not_found;
  has_body = false;
}

pub record Weight : Type 0 where
  pub kind : Kind
  pub weight : ℕ  -- int

abbrev pub share_of : Kind → ℕ → Weight
share_of kind weight = record { kind = kind; weight = weight }

abbrev pub default_mix : List Weight
default_mix =
    share_of fetch 40
    ∷ share_of echo 25
    ∷ share_of ingest 20
    ∷ share_of stream 10
    ∷ share_of not_found 5
    ∷ []

abbrev pub grpc_mix : List Weight
grpc_mix = share_of echo 100 ∷ []

unfoldable pub mix_for : Bytes → List Weight
mix_for regime = if text_eq regime (codes "grpc") then grpc_mix else default_mix
