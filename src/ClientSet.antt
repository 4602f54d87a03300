-- ===== src/ClientSet.antt =====
-- internal/clientset/clientset.go: the calls and results that cross the seam between the driver and a
-- client library.
pub mod Matrix
pub mod Endpoint
pub mod Adapters
pub mod Grpc
pub mod Close
pub mod ResponsePool
mod Tests
use poseidon_tests.Prelude.{ℕ, Bytes, Option}

pub record Call : Type 0 where
  pub scenario : Bytes
  pub method : Bytes
  pub path : Bytes
  pub body : Option Bytes  -- `nil` is `none`

pub record Result : Type 0 where
  pub status : ℕ  -- int
  pub body_len : ℕ  -- int
