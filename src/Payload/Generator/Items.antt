-- ===== src/Payload/Generator/Items.antt =====
-- What the loops of the generator make: no panic, and items within their documented ranges.
use poseidon_tests.Prelude.{
  ℕ, zero, suc, ◌^◌, ◌≤◌, ◌<◌, ◌≡◌, refl, List, ◌++◌, some, Bytes, arith, codes, length, get_elem?,
  All, half, ap,
}
use poseidon_tests.Go.Rand.{Rand, checked_int_n}
use poseidon_tests.Go.Outcome.{Ends, by_value, Ends-bind, Ends-get_elem?}
use poseidon_tests.Go.Strconv
use poseidon_tests.Payload.{Item, kinds, tag_pool}
use poseidon_tests.Payload.Generator.{roll, make_tags, make_item, make_items}

abbrev pub IsTag : Bytes → Type 0
IsTag t = (i : ℕ) × (get_elem? tag_pool i ≡ some t)

pub record ItemIsValid (r : Rand) (item : Item r) : Type 0 where
  pub id_small : item.id < 2 ^ 40
  pub named : (v : ℕ) × (v < 1000000) × (item.name ≡ codes "item-" ++ Strconv.format v)
  pub kind_known : (k : ℕ) × (get_elem? kinds k ≡ some item.kind)
  pub few_tags : length item.tags ≤ 2
  pub tags_known : All IsTag item.tags

-- No call below has an error of its own, so `Q` is any condition on errors.
module _ (r : Rand) {E : Type 0} {Q : E → Type 0} where
  pub roll-Ends :
      (g : r.Gen) (n : ℕ)
      → 0 < n
      → n < half
      → Ends (λ (drawn : ℕ × r.Gen). drawn.0 < n) Q (roll r {E = E} g n)
  unfolding roll
  roll-Ends g n p b =
      let plain : checked_int_n r g n ≡ some (r.int_n g n) = ground arith in
      rw plain (by_value (r.int_n-lt g n p))

  make_tags-Ends :
      (k : ℕ) (g : r.Gen)
      → Ends
          (λ (made : List Bytes × r.Gen). (length made.0 ≡ k) × All IsTag made.0)
          Q
          (make_tags r {E = E} k g)
  unfolding make_tags
  make_tags-Ends zero g = by_value (refl, tt)
  make_tags-Ends (suc k) g =
      Ends-bind (roll-Ends g (length tag_pool) (omega arith) (omega arith)) λ (t, g1) low.
        Ends-bind (Ends-get_elem? tag_pool t low) λ tag found.
          Ends-bind (make_tags-Ends k g1)
            λ (tags, g2) (long, known). by_value (ap suc long, ((t, found), known))

  make_item-Ends :
      (g : r.Gen) → Ends (λ (made : Item r × r.Gen). ItemIsValid r made.0) Q (make_item r {E = E} g)
  unfolding make_item
  make_item-Ends g = Ends-bind (roll-Ends g 3 (omega arith) (omega arith)) λ (few, g1) low.
      Ends-bind (make_tags-Ends few g1) λ (tags, g2) (long, known).
        let (id, g3) = r.int64_n g2 (2 ^ 40) in
        Ends-bind (roll-Ends g3 1000000 (omega arith) (omega arith)) λ (v, g4) small.
          Ends-bind (roll-Ends g4 (length kinds) (omega arith) (omega arith)) λ (k, g5) in_kinds.
            Ends-bind (Ends-get_elem? kinds k in_kinds) λ kind found. by_value (record {
              id_small = r.int64_n-lt g2 (2 ^ 40) (omega arith);
              named = (v, small, refl);
              kind_known = (k, found);
              few_tags = omega arith;
              tags_known = known;
            })

  -- The loop makes as many items as it is told, each with an id below 2 ^ 40, a name made of a number
  -- below a million, a kind and at most two tags from the tables.
  pub make_items-Ends :
      (k : ℕ) (g : r.Gen)
      → Ends
          (λ (made : List (Item r) × r.Gen). (length made.0 ≡ k) × All (ItemIsValid r) made.0)
          Q
          (make_items r {E = E} k g)
  unfolding make_items
  make_items-Ends zero g = by_value (refl, tt)
  make_items-Ends (suc k) g = Ends-bind (make_item-Ends g) λ (item, g1) valid.
      Ends-bind (make_items-Ends k g1)
        λ (items, g2) (long, rest). by_value (ap suc long, (valid, rest))
