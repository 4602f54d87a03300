-- ===== src/Scenario/PathPool/Variants.antt =====
-- What `NewPathPool` builds and `Path` returns, at every size and sequence number.
use poseidon_tests.Prelude.{
  ℕ, zero, suc, ◌+◌, ◌%◌, ◌≤◌, ◌<◌, ◌≡◌, refl, ap, ◌∙◌, subst, Bool-cases, inl, inr, ◌⊎◌, none,
  some, ◌*◌, List, [], ◌∷◌, ◌++◌, arith, Bytes, codes, half, word, get_elem?, cycle,
  cycle-get_elem?,
}
use poseidon_tests.Api.{route_fetch, route_stream}
use poseidon_tests.Go.Make.{max_alloc, too_long, string_width}
use poseidon_tests.Go.Strconv.{format}
use poseidon_tests.Scenario.{fetch, stream, all}
use poseidon_tests.Scenario.Itoa.{itoa-format}
use poseidon_tests.Scenario.PathPool.{
  PathPool, fetch_path, stream_path, build, checked_size, fill_paths, new_path_pool, path,
}

-- The number of items asked for by the fetch path `i`, and of chunks by the stream path `i`.
abbrev pub items_at : ℕ → ℕ
items_at i = 4 + i % 200

abbrev pub chunks_at : ℕ → ℕ
chunks_at i = 2 + i % 16

abbrev pub fetch_text : ℕ → Bytes
fetch_text i = route_fetch ++ (codes "?n=" ++ (format (items_at i) ++ (codes "&seq=" ++ format i)))

abbrev pub stream_text : ℕ → Bytes
stream_text i = route_stream ++ (codes "?chunks=" ++ format (chunks_at i))

fetch_path-text : (i : ℕ) → i < half → fetch_path i ≡ some (fetch_text i)
unfolding fetch_path all
fetch_path-text i h = rw (itoa-format (4 + i % 200) (omega arith), itoa-format i h) refl

stream_path-text : (i : ℕ) → stream_path i ≡ some (stream_text i)
unfolding stream_path all
stream_path-text i = rw (itoa-format (2 + i % 16) (omega arith)) refl

-- f i, f (i + 1), and so on, `n` in all.
module _ {A : Type 0} (f : ℕ → A) where
  map_range : ℕ → ℕ → List A
  map_range i zero = []
  map_range i (suc n) = f i ∷ map_range (i + 1) n

  get_elem?-map_range : (i n j : ℕ) → j < n → get_elem? (map_range i n) j ≡ some (f (i + j))
  unfolding map_range
  get_elem?-map_range i zero j h = elim h [ ]
  get_elem?-map_range i (suc n) zero h = ap (λ k. some (f k)) (omega arith)
  get_elem?-map_range i (suc n) (suc j) h =
      get_elem?-map_range (i + 1) n j (omega arith) ∙ ap (λ k. some (f k)) (omega arith)

build-map_range :
    (left i : ℕ)
    → i + left ≤ half
    → build left i ≡ some (map_range fetch_text i left, map_range stream_text i left)
unfolding build map_range
build-map_range zero i h = refl
build-map_range (suc left) i h =
    rw
      (
        fetch_path-text i (omega arith),
        stream_path-text i,
        build-map_range left (i + 1) (omega arith),
      )
      refl

pub checked_size_range :
    (size : ℕ) → size < word → (0 < checked_size size) × (checked_size size < half)
checked_size_range size h = (ground arith, ground arith)

cycle-map_range :
    {A : Type 0} (f : ℕ → A) (n seq : ℕ)
    → 0 < n
    → cycle (map_range f 0 n) n seq ≡ some (f (seq % n))
cycle-map_range f n seq h =
    cycle-get_elem? (map_range f 0 n) n seq h
    ∙ get_elem?-map_range f 0 n (seq % n) (grind arith)
    ∙ ap (λ k. some (f k)) (omega arith)

-- What every sequence number has in a pool of `n` paths.
abbrev pub AreServed : ℕ → PathPool → Type 0
AreServed n p =
    (seq : ℕ)
    → (path p fetch seq ≡ some (fetch_text (seq % n)))
      × (path p stream seq ≡ some (stream_text (seq % n)))

filled : (n : ℕ) → 0 < n → n < half → (p : PathPool) × (fill_paths n ≡ some p) × AreServed n p
unfolding fill_paths path
filled n positive small = (
  record {
    fetch_paths = map_range fetch_text 0 n;
    stream_paths = map_range stream_text 0 n;
    n = n;
  },
  rw (build-map_range n 0 (omega arith)) refl,
  λ seq. (cycle-map_range fetch_text n seq positive, cycle-map_range stream_text n seq positive),
)

-- For every size, where one that is not positive counts as 1024: if the headers of as many strings
-- fit into memory, the pool is built with no panic, and every sequence number has a path: the fetch
-- path asks for 4 to 203 items and carries its place in the pool, the stream path asks for 2 to 17
-- chunks. If they do not fit, there is a panic.
pub path-new_path_pool :
    (size : ℕ)
    → size < word
    → (checked_size size * string_width ≤ max_alloc)
        × ((p : PathPool) × (new_path_pool size ≡ some p) × AreServed (checked_size size) p)
      ⊎ (max_alloc < checked_size size * string_width) × (new_path_pool size ≡ none)
unfolding new_path_pool
path-new_path_pool size h =
    let n = checked_size size in
    let (positive, small) = checked_size_range size h in
    elim (Bool-cases (too_long n string_width)) [
      | inl over ↦ inr (ground arith, rw over refl)
      | inr fits ↦
          let (p, built, served) = filled n positive small in
          inl (ground arith, (p, rw fits built, served))
    ]

-- What a pool that was built serves.
pub built-AreServed :
    (size : ℕ) {p : PathPool}
    → size < word
    → new_path_pool size ≡ some p
    → AreServed (checked_size size) p
built-AreServed size {p} h built = elim (path-new_path_pool size h) [
  | inl (fits, (p', built', served)) ↦
      let same : p' ≡ p = cc in subst (AreServed (checked_size size)) same served
  | inr (over, panics) ↦ cc
]

-- Where the headers fit into memory, the pool is built.
pub fitting_paths :
    (size : ℕ)
    → size < word
    → checked_size size * string_width ≤ max_alloc
    → (p : PathPool) × (new_path_pool size ≡ some p) × AreServed (checked_size size) p
fitting_paths size h fits = elim (path-new_path_pool size h) [
  | inl (room, made) ↦ made
  | inr (over, panics) ↦ absurd (omega arith)
]
