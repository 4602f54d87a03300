-- ===== src/Payload/Generator/Bodies.antt =====
-- What `pickClass` and `Next` of the generator return.
use poseidon_tests.Prelude.{
  ℕ, ◌≤◌, ◌<◌, ◌≡◌, refl, ◌∙◌, ◌⊎◌, inl, inr, Bool-cases, List, some, Bytes, arith, length,
  get_elem?, All, All-get_elem?, lt→leb, ap, sym, subst, half, slt, sub64,
}
use poseidon_tests.Go.Rand.{Rand}
use poseidon_tests.Go.Outcome.{Ends, by_value, by_error, Ends-bind, Ends-or, or_panic, returned}
use poseidon_tests.Weighted.Choice.{sum, total-sum, pick-some, pick-get_elem?}
use poseidon_tests.Payload.{Body, Json, SizeClass}
use poseidon_tests.Payload.Generator.{
  class_weight, or_default, Generator, new_generator, pick_class, item_count, next,
}
use poseidon_tests.Payload.Generator.Items.{ItemIsValid, roll-Ends, make_items-Ends}

-- Bounds that are not negative.
pub record ClassIsValid (c : SizeClass) : Type 0 where
  pub min_bounded : c.min_items < half
  pub max_bounded : c.max_items < half

-- The counts that a class gives: from `min_items` up to `max_items`, which is left out unless the two
-- agree.
abbrev pub InClass : SizeClass → ℕ → Type 0
InClass c n = (c.min_items ≤ n) × ((n < c.max_items) ⊎ (n ≡ c.min_items))

pub record ClassesAreValid (cs : List SizeClass) : Type 0 where
  pub positive : 0 < sum class_weight cs
  pub bounded : sum class_weight cs < half
  pub each : All ClassIsValid cs

pub record GeneratorIsValid (r : Rand) (g : Generator r) : Type 0 where
  pub exact : g.total_weight ≡ sum class_weight g.classes
  pub classes_valid : ClassesAreValid g.classes

-- A body that `Next` may build from the classes.
pub record IsBody (r : Rand) (cs : List SizeClass) (seq : ℕ) (scenario : Bytes) (b : Body r)
    : Type 0 where
  pub seq_kept : b.seq ≡ seq
  pub scenario_kept : b.scenario ≡ scenario
  pub class : SizeClass
  pub place : ℕ
  pub listed : get_elem? cs place ≡ some class
  pub sized : InClass class (length b.items)
  pub items_valid : All (ItemIsValid r) b.items

module _ (r : Rand) where
  pub new_generator-IsValid :
      (seed worker : ℕ) (cs : List SizeClass)
      → ClassesAreValid (or_default cs)
      → GeneratorIsValid r (new_generator r seed worker cs)
  unfolding new_generator
  new_generator-IsValid seed worker cs v = record {
    exact = total-sum class_weight (or_default cs) v.bounded;
    classes_valid = v;
  }

  module _ {E : Type 0} {Q : E → Type 0} where
    -- `pickClass` returns one of the classes, and changes nothing but the generator's stream.
    pub pick_class-Ends :
        (g : Generator r)
        → GeneratorIsValid r g
        → Ends
            (λ (picked : SizeClass × Generator r).
              ((i : ℕ) × (get_elem? g.classes i ≡ some picked.0))
              × (picked.1.classes ≡ g.classes)
              × (picked.1.total_weight ≡ g.total_weight))
            Q
            (pick_class r {E = E} g)
    unfolding pick_class
    pick_class-Ends g v =
        Ends-bind (roll-Ends r g.rng g.total_weight (omega arith) (omega arith)) λ (n, rng) low.
          let (c, picked) =
            pick-some class_weight g.classes n v.classes_valid.bounded (omega arith) in
          rw (picked, or_panic)
            (by_value (pick-get_elem? class_weight g.classes n picked, refl, refl))

    pub item_count-Ends :
        (c : SizeClass) (rng : r.Gen)
        → ClassIsValid c
        → Ends
            (λ (counted : ℕ × r.Gen). InClass c counted.0 × (counted.0 < half))
            Q
            (item_count r {E = E} c rng)
    unfolding item_count
    item_count-Ends c rng v = elim (Bool-cases (slt c.min_items c.max_items)) [
      | inl wide ↦
          let wider : c.min_items < c.max_items = ground arith in
          rw wide (
            Ends-bind (roll-Ends r rng (sub64 c.max_items c.min_items) (omega arith) (omega arith))
              λ (n, rng') low. by_value ((omega arith, inl (omega arith)), omega arith))
      | inr narrow ↦ rw narrow (by_value ((omega arith, inr refl), omega arith))
    ]

  module _ (json : Json r) where
    -- What `Next` leaves behind with the bytes `b`.
    pub record IsNext (g : Generator r) (seq : ℕ) (scenario : Bytes) (b : Bytes) (g' : Generator r)
        : Type 0 where
      pub body : Body r
      pub is_body : IsBody r g.classes seq scenario body
      pub marshalled : json.marshal body ≡ inr b
      pub buffered : g'.buf ≡ b
      pub classes_kept : g'.classes ≡ g.classes
      pub valid : GeneratorIsValid r g'

    -- The error of a body that the generator may build.
    pub record IsFailed (cs : List SizeClass) (seq : ℕ) (scenario : Bytes) (e : json.Error)
        : Type 0 where
      pub body : Body r
      pub is_body : IsBody r cs seq scenario body
      pub refused : json.marshal body ≡ inl e

    returned-Ends :
        {A : Type 0} (x : json.Error ⊎ A) → Ends (λ a. x ≡ inr a) (λ e. x ≡ inl e) (returned x)
    returned-Ends (inl e) = by_error refl
    returned-Ends (inr a) = by_value refl

    -- From a valid generator `Next` does not panic. It returns the encoding of a body with this
    -- sequence number and scenario, whose item count lies in one of the classes and whose items are
    -- valid, and its buffer holds that encoding; or it returns the encoder's error for such a body.
    pub next-Ends :
        (g : Generator r) (seq : ℕ) (scenario : Bytes)
        → GeneratorIsValid r g
        → Ends
            (λ (made : Bytes × Generator r). IsNext g seq scenario made.0 made.1)
            (IsFailed g.classes seq scenario)
            (next r json g seq scenario)
    unfolding next
    next-Ends g seq scenario v =
        Ends-bind (pick_class-Ends g v) λ (c, g1) ((place, listed), kept, total_kept).
          Ends-bind
            (item_count-Ends c g1.rng
              (All-get_elem? ClassIsValid g.classes place v.classes_valid.each listed))
            λ (n, rng) (in_class, small). rw (lt→leb half n small) (
              Ends-bind (make_items-Ends r n rng) λ (items, rng') (long, valid_items).
                let body : Body r = record { seq = seq; scenario = scenario; items = items } in
                let is_body : IsBody r g.classes seq scenario body = record {
                  seq_kept = refl;
                  scenario_kept = refl;
                  class = c;
                  place = place;
                  listed = listed;
                  sized = rw long in_class;
                  items_valid = valid_items;
                } in
                Ends-or (returned-Ends (json.marshal body))
                  (λ b e. by_value (record {
                    body = body;
                    is_body = is_body;
                    marshalled = e;
                    buffered = refl;
                    classes_kept = kept;
                    valid = record {
                      exact = total_kept ∙ v.exact ∙ ap (sum class_weight) (sym kept);
                      classes_valid = subst ClassesAreValid (sym kept) v.classes_valid;
                    };
                  }))
                  (λ e h. record { body = body; is_body = is_body; refused = h }))
