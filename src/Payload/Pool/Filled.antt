-- ===== src/Payload/Pool/Filled.antt =====
-- What `NewPool` makes, and what `Next` and `For` return from it.
use poseidon_tests.Prelude.{
  ℕ, zero, suc, ◌+◌, ◌*◌, ◌%◌, ◌<◌, ◌≤◌, ◌≡◌, ◌⊎◌, inl, Bool-cases, refl, ap, ◌∙◌, subst, inr, List,
  [], ◌∷◌, some, Bytes, arith, codes, length, get_elem?, get_elem?-some, cycle-get_elem?,
}
use poseidon_tests.Go.Rand.{Rand}
use poseidon_tests.Go.Make.{max_alloc, too_long, slice_width}
use poseidon_tests.Go.Outcome.{ok, panic, Ends, Ends-ok, by_value, Ends-bind, Ends-or}
use poseidon_tests.Payload.{Body, Json, SizeClass}
use poseidon_tests.Payload.Generator.{Generator, or_default, new_generator}
use poseidon_tests.Payload.Generator.Bodies.{
  ClassesAreValid, GeneratorIsValid, new_generator-IsValid, IsBody, IsFailed, next-Ends,
}
use poseidon_tests.Payload.Pool.{Pool, checked_size, fill, fill_pool, new_pool, mixed, for_worker}

module _ (r : Rand) (json : Json r) where
  -- The text is the encoding of a body with sequence number `i`.
  abbrev pub IsEntry : List SizeClass → ℕ → Bytes → Type 0
  IsEntry cs i b =
      (body : Body r) × IsBody r cs i (codes "mixed") body × (json.marshal body ≡ inr b)

  -- The entries from sequence number `i` on.
  abbrev pub AreEntries : List SizeClass → ℕ → List Bytes → Type 0
  AreEntries cs i [] = Unit
  AreEntries cs i (b ∷ bs) = IsEntry cs i b × AreEntries cs (i + 1) bs

  -- The encoder refused a body that the generator may build.
  abbrev pub IsRefusal : List SizeClass → json.Error → Type 0
  IsRefusal cs e = (i : ℕ) × IsFailed r json cs i (codes "mixed") e

  fill-Ends :
      (left i : ℕ) (g : Generator r)
      → GeneratorIsValid r g
      → Ends
          (λ bodies. (length bodies ≡ left) × AreEntries g.classes i bodies)
          (IsRefusal g.classes)
          (fill r json left i g)
  unfolding fill
  fill-Ends zero i g v = by_value (refl, tt)
  fill-Ends (suc left) i g v =
      Ends-or (next-Ends r json g i (codes "mixed") v)
        (λ (b, g') made.
          Ends-or (fill-Ends left (i + 1) g' made.valid)
            (λ bodies (long, rest). by_value (
              ap suc long,
              (
                (made.body, made.is_body, made.marshalled),
                subst (λ cs. AreEntries cs (i + 1) bodies) made.classes_kept rest,
              ),
            ))
            (λ e. subst (λ cs. IsRefusal cs e) made.classes_kept))
        (λ e failed. (i, failed))

  AreEntries-get_elem? :
      (cs : List SizeClass) (i : ℕ) (bs : List Bytes) (k : ℕ) {b : Bytes}
      → AreEntries cs i bs
      → get_elem? bs k ≡ some b
      → IsEntry cs (i + k) b
  AreEntries-get_elem? cs i [] k h e = cc
  AreEntries-get_elem? cs i (c ∷ bs) zero {b} h e =
      let same : c ≡ b = cc in
      let there : i ≡ i + 0 = omega arith in
      subst (λ j. IsEntry cs j b) there (subst (IsEntry cs i) same h.0)
  AreEntries-get_elem? cs i (c ∷ bs) (suc k) {b} h e =
      let there : i + 1 + k ≡ i + suc k = omega arith in
      subst (λ j. IsEntry cs j b) there (AreEntries-get_elem? cs (i + 1) bs k h.1 e)

  pub record IsFilled (cs : List SizeClass) (size : ℕ) (p : Pool) : Type 0 where
    pub sized : p.n ≡ checked_size size
    pub positive : 0 < p.n
    pub full : length p.bodies ≡ p.n
    pub entries : AreEntries cs 0 p.bodies

  fill_pool-Ends :
      (seed worker : ℕ) (cs : List SizeClass) (size : ℕ)
      → ClassesAreValid (or_default cs)
      → Ends
          (IsFilled (or_default cs) size)
          (IsRefusal (or_default cs))
          (fill_pool r json (checked_size size) (new_generator r seed worker cs))
  unfolding fill_pool new_generator
  fill_pool-Ends seed worker cs size v =
      Ends-bind
        (fill-Ends (checked_size size) 0 (new_generator r seed worker cs)
          (new_generator-IsValid r seed worker cs v))
        λ bodies (long, entries).
          by_value
            (record { sized = refl; positive = ground arith; full = long; entries = entries })

  -- From valid classes, and at a size whose slice headers fit into memory, `NewPool` does not panic:
  -- it returns the encoder's error for a body of the generator, or a pool of the checked size, not
  -- empty, whose entry `i` is the encoding of a body with sequence number `i` and an item count and
  -- items within the ranges of a class. At a size whose headers do not fit it panics.
  pub new_pool-Ends :
      (seed worker : ℕ) (cs : List SizeClass) (size : ℕ)
      → ClassesAreValid (or_default cs)
      → (checked_size size * slice_width ≤ max_alloc)
          × Ends
              (IsFilled (or_default cs) size)
              (IsRefusal (or_default cs))
              (new_pool r json seed worker cs size)
        ⊎ (max_alloc < checked_size size * slice_width)
          × (new_pool r json seed worker cs size ≡ panic)
  unfolding new_pool
  new_pool-Ends seed worker cs size v =
      elim (Bool-cases (too_long (checked_size size) slice_width)) [
        | inl over ↦ inr (ground arith, rw over refl)
        | inr fits ↦ inl (ground arith, rw fits (fill_pool-Ends seed worker cs size v))
      ]

  -- What `NewPool` returned is filled.
  pub built-IsFilled :
      (seed worker : ℕ) (cs : List SizeClass) (size : ℕ) {p : Pool}
      → ClassesAreValid (or_default cs)
      → new_pool r json seed worker cs size ≡ ok p
      → IsFilled (or_default cs) size p
  built-IsFilled seed worker cs size v built = elim (new_pool-Ends seed worker cs size v) [
    | inl (fits, ends) ↦ Ends-ok ends built
    | inr (over, panics) ↦ cc
  ]

  module _ {cs : List SizeClass} {size : ℕ} (p : Pool) (v : IsFilled cs size p) where
    entry : (i : ℕ) → i < p.n → (b : Bytes) × (get_elem? p.bodies i ≡ some b) × IsEntry cs i b
    entry i h =
        let (b, found) = get_elem?-some p.bodies i (omega (arith, v.full)) in
        let start : 0 + i ≡ i = omega arith in
        let at_start = AreEntries-get_elem? cs 0 p.bodies i v.entries found in
        (b, found, subst (λ j. IsEntry cs j b) start at_start)

    -- On a filled pool `For` never panics, whatever the worker and the sequence number: it returns an
    -- entry of the pool, at the mixed number modulo the size.
    pub for_worker_lem :
        (worker seq : ℕ)
        → (b : Bytes) × (for_worker p worker seq ≡ some b) × IsEntry cs (mixed worker seq % p.n) b
    unfolding for_worker
    for_worker_lem worker seq =
        let (b, found, is_entry) = entry (mixed worker seq % p.n) (grind (arith, v.positive)) in
        (b, cycle-get_elem? p.bodies p.n (mixed worker seq) v.positive ∙ found, is_entry)
