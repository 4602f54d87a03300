-- ===== src/Payload/Pool.antt =====
-- `Pool` of internal/payload/payload.go: the bodies precomputed for all workers.
pub mod Filled
pub mod Spread
use poseidon_tests.Prelude.{
  ℕ, zero, suc, ◌+◌, List, [], ◌∷◌, Option, Bytes, codes, add64, mul64, not_pos, if◌then◌else◌,
  cycle,
}
use poseidon_tests.Go.Rand.{Rand}
use poseidon_tests.Go.Make.{too_long, slice_width}
use poseidon_tests.Go.Outcome.{Outcome, ok, panic, ◌>>=◌}
use poseidon_tests.Payload.{Json, SizeClass}
use poseidon_tests.Payload.Generator
use poseidon_tests.Payload.Generator.{Generator}

abbrev pub default_pool_size : ℕ
default_pool_size = 1024

pub record Pool : Type 0 where
  pub bodies : List Bytes
  pub n : ℕ  -- uint64

-- `if size <= 0 { size = DefaultPoolSize }`
abbrev pub checked_size : ℕ → ℕ
checked_size size = if not_pos size then default_pool_size else size

module _ (r : Rand) (json : Json r) where
  -- The loop from round `i` on, with `left` rounds to go. A body is copied out of the generator's
  -- buffer before the next round writes it again.
  unfoldable pub fill : ℕ → ℕ → Generator r → Outcome json.Error (List Bytes)
  fill zero i g = ok []
  fill (suc left) i g = do
    (b, g) ← Generator.next r json g i (codes "mixed")
    bodies ← fill left (i + 1) g
    ok (b ∷ bodies)

  -- The loop, once the slice of size `n` is made.
  unfoldable pub fill_pool : ℕ → Generator r → Outcome json.Error Pool
  fill_pool n g = do bodies ← fill n 0 g; ok (record { bodies = bodies; n = n })

  -- `make` panics for a size that is too large.
  unfoldable pub new_pool : ℕ → ℕ → List SizeClass → ℕ → Outcome json.Error Pool
  new_pool seed worker classes size =
      if too_long (checked_size size) slice_width
      then panic
      else fill_pool (checked_size size) (Generator.new_generator r seed worker classes)

unfoldable pub next : Pool → ℕ → Option Bytes
next p seq = cycle p.bodies p.n seq

-- The sum that `For` reduces modulo the pool's size.
unfoldable pub mixed : ℕ → ℕ → ℕ
mixed worker seq = add64 (mul64 seq 2654435761) (mul64 worker 40503)

unfoldable pub for_worker : Pool → ℕ → ℕ → Option Bytes
for_worker p worker seq = cycle p.bodies p.n (mixed worker seq)
