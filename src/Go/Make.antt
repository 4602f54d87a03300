-- ===== src/Go/Make.antt =====
-- The bound of `make` for slices.
use poseidon_tests.Prelude.{ℕ, ◌*◌, Bool, ltb}

-- What the runtime can allocate at most on a 64-bit machine, 2 ^ 48 bytes. `make` panics for more.
abbrev pub max_alloc : ℕ
max_alloc = 281474976710656

-- Whether `make` panics for a slice of `size` elements, of `width` bytes each.
abbrev pub too_long : (size width : ℕ) → Bool
too_long size width = ltb max_alloc (size * width)

-- The bytes of a string's and of a slice's header.
abbrev pub string_width : ℕ
string_width = 16

abbrev pub slice_width : ℕ
slice_width = 24
