-- ===== src/Scenario/PathPool.antt =====
-- `PathPool` of internal/scenario/scenario.go; what it holds is proved in the module below.
pub mod Variants
use poseidon_tests.Prelude.{
  ℕ, zero, suc, ◌+◌, ◌%◌, Option, none, some, ◌>>=◌, List, [], ◌∷◌, ◌++◌, Bytes, codes,
  if◌then◌else◌, not_pos, cycle,
}
use poseidon_tests.Go.Make.{too_long, string_width}
use poseidon_tests.Scenario.{Kind, fetch, stream, all}
use poseidon_tests.Scenario.Itoa.{itoa}

pub record PathPool : Type 0 where
  pub fetch_paths : List Bytes
  pub stream_paths : List Bytes
  pub n : ℕ  -- uint64

-- What the round `i` of the loop writes into `p.fetch[i]` and `p.stream[i]`.
pub fetch_path : ℕ → Option Bytes
fetch_path i = do
  let items = 4 + i % 200
  items_text ← itoa items
  seq_text ← itoa i
  some ((all fetch).path ++ (codes "?n=" ++ (items_text ++ (codes "&seq=" ++ seq_text))))

pub stream_path : ℕ → Option Bytes
stream_path i = do
  chunks_text ← itoa (2 + i % 16)
  some ((all stream).path ++ (codes "?chunks=" ++ chunks_text))

-- The loop from round `i` on, with `left` rounds to go; a panic ends it.
pub build : ℕ → ℕ → Option (List Bytes × List Bytes)
build zero i = some ([], [])
build (suc left) i = do
  f ← fetch_path i
  s ← stream_path i
  (fs, ss) ← build left (i + 1)
  some (f ∷ fs, s ∷ ss)

-- `if size <= 0 { size = 1024 }`
abbrev pub checked_size : ℕ → ℕ
checked_size size = if not_pos size then 1024 else size

-- The loop, once the two slices of size `n` are made.
unfoldable pub fill_paths : ℕ → Option PathPool
fill_paths n = do (fs, ss) ← build n 0; some (record { fetch_paths = fs; stream_paths = ss; n = n })

-- `make` panics for a size that is too large.
unfoldable pub new_path_pool : ℕ → Option PathPool
new_path_pool size =
    if too_long (checked_size size) string_width then none else fill_paths (checked_size size)

unfoldable pub path : PathPool → Kind → ℕ → Option Bytes
path p fetch seq = cycle p.fetch_paths p.n seq
path p stream seq = cycle p.stream_paths p.n seq
path p k seq = some (all k).path
