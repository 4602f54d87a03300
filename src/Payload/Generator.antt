-- ===== src/Payload/Generator.antt =====
-- `Generator` of internal/payload/payload.go. The slice that `Next` returns aliases `buf`, so it is
-- the `buf` of the state that `Next` leaves; what it holds is proved below.
pub mod Items
pub mod Bodies
use poseidon_tests.Prelude.{
  ℕ, zero, suc, ◌+◌, ◌^◌, List, [], ◌∷◌, ◌++◌, Bytes, codes, length, get_elem?, add64, sub64, slt,
  is_neg, if◌then◌else◌, ◌>>=◌ as bind,
}
use poseidon_tests.Go.Rand.{Rand, checked_int_n}
use poseidon_tests.Go.Outcome.{Outcome, ok, ◌>>=◌, or_panic, returned}
use poseidon_tests.Go.Strconv
use poseidon_tests.Weighted
use poseidon_tests.Payload.{Item, Json, SizeClass, default_size_classes, kinds, tag_pool}

abbrev pub class_weight : SizeClass → ℕ
class_weight c = c.weight

-- `if len(classes) == 0 { classes = DefaultSizeClasses }`
abbrev pub or_default : List SizeClass → List SizeClass
or_default [] = default_size_classes
or_default (c ∷ cs) = c ∷ cs

pub record Generator (r : Rand) : Type 0 where
  pub rng : r.Gen
  pub classes : List SizeClass
  pub total_weight : ℕ  -- int
  pub buf : Bytes
  pub items : List (Item r)

module _ (r : Rand) where
  unfoldable pub new_generator : ℕ → ℕ → List SizeClass → Generator r
  new_generator seed worker classes = record {
    rng = r.pcg seed worker;
    classes = or_default classes;
    total_weight = Weighted.total class_weight (or_default classes);
    buf = [];
    items = [];
  }

  module _ {E : Type 0} where
    -- `g.rng.IntN(n)`, which may panic
    unfoldable pub roll : r.Gen → ℕ → Outcome E (ℕ × r.Gen)
    roll g n = or_panic (checked_int_n r g n)

    unfoldable pub pick_class : Generator r → Outcome E (SizeClass × Generator r)
    pick_class g = do
      (n, rng) ← roll g.rng g.total_weight
      c ← or_panic (Weighted.pick class_weight g.classes n)
      ok (c, record g { rng = rng })

    -- The loop over `nTags`.
    unfoldable pub make_tags : ℕ → r.Gen → Outcome E (List Bytes × r.Gen)
    make_tags zero rng = ok ([], rng)
    make_tags (suc k) rng = do
      (t, rng) ← roll rng (length tag_pool)
      tag ← or_panic (get_elem? tag_pool t)
      (tags, rng) ← make_tags k rng
      ok (tag ∷ tags, rng)

    -- One round of the loop over the items. The fields are drawn in the order of the literal.
    unfoldable pub make_item : r.Gen → Outcome E (Item r × r.Gen)
    make_item rng = do
      (n_tags, rng) ← roll rng 3
      (tags, rng) ← make_tags n_tags rng
      let (id, rng) = r.int64_n rng (2 ^ 40)
      (number, rng) ← roll rng 1000000
      (k, rng) ← roll rng (length kinds)
      kind ← or_panic (get_elem? kinds k)
      let (f, rng) = r.float64 rng
      ok (
        record {
          id = id;
          name = codes "item-" ++ Strconv.format number;
          kind = kind;
          score = r.hundredfold f;
          tags = tags;
        },
        rng,
      )

    unfoldable pub make_items : ℕ → r.Gen → Outcome E (List (Item r) × r.Gen)
    make_items zero rng = ok ([], rng)
    make_items (suc k) rng = do
      (item, rng) ← make_item rng
      (items, rng) ← make_items k rng
      ok (item ∷ items, rng)

    -- The item count of a class: `MinItems`, plus a draw if the class is wider than that.
    unfoldable pub item_count : SizeClass → r.Gen → Outcome E (ℕ × r.Gen)
    item_count c rng =
        if slt c.min_items c.max_items
        then (do (n, rng) ← roll rng (sub64 c.max_items c.min_items); ok (add64 c.min_items n, rng))
        else ok (c.min_items, rng)

  module _ (json : Json r) where
    unfoldable pub next : Generator r → ℕ → Bytes → Outcome json.Error (Bytes × Generator r)
    next g seq scenario = do
      (c, g) ← pick_class g
      (n, rng) ← item_count c g.rng
      (items, rng) ← make_items (if is_neg n then 0 else n) rng
      b ← returned (json.marshal (record { seq = seq; scenario = scenario; items = items }))
      ok (b, record g { rng = rng; items = items; buf = b })
