-- ===== src/Comparison/Value.antt =====
-- A report as `json.load` gives it, and what scripts/report.py reads from it. A number is kept as the
-- float that `float` makes of it.
use poseidon_tests.Prelude.{
  ℕ, Bool, List, [], ◌∷◌, Option, none, some, Bytes, codes, text_eq, if◌then◌else◌, ◌||◌, leb, ◌==◌,
  ◌&&◌, ◌>>=◌, true, false,
}
use poseidon_tests.Comparison.Numbers.{Numbers, zero_number}

mutual
  pub data Value (py : Numbers) : Type 0 where
    nothing : Value py
    boolean : Bool → Value py
    float : py.Number → Value py
    str : Bytes → Value py
    list : Items py → Value py
    dict : Members py → Value py

  pub data Items (py : Numbers) : Type 0 where
    done : Items py
    item : Value py → Items py → Items py

  pub data Members (py : Numbers) : Type 0 where
    end : Members py
    member : Bytes → Value py → Members py → Members py

-- The continuation of a value that is there; a `continue` of the loop around it otherwise.
abbrev pub on {ℓ κ} : {A : Type ℓ} {B : Type κ} → Option A → (A → List B) → List B
on none f = []
on (some a) f = f a

module _ (py : Numbers) where
  -- Of the members with one key, `json.load` keeps the last.
  unfoldable pub member_of : Bytes → Members py → Option (Value py)
  member_of k end = none
  member_of k (member j v ms) = elim (member_of k ms) [
    | some w ↦ some w
    | none ↦ if text_eq j k then some v else none
  ]

  -- `record.get(key)`, where `record` is a dict; `none` also where it is not.
  unfoldable pub get : Value py → Bytes → Option (Value py)
  unfolding member_of
  get (dict ms) k = member_of k ms
  get _ k = none

  abbrev pub float_of : Value py → Option py.Number
  float_of (float x) = some x
  float_of _ = none

  abbrev pub text_of : Value py → Option Bytes
  text_of (str s) = some s
  text_of _ = none

  abbrev pub dict_of : Value py → Option (Value py)
  dict_of (dict ms) = some (dict ms)
  dict_of _ = none

  -- `number(record, key)`
  unfoldable pub number : Value py → Bytes → Option py.Number
  unfolding get
  number record_value k = get record_value k >>= float_of

  -- `value is False`
  abbrev pub is_false : Option (Value py) → Bool
  is_false (some (boolean false)) = true
  is_false _ = false

  -- The white space of `str.strip`, on ASCII text.
  abbrev is_space : ℕ → Bool
  is_space c = c == 32 || (leb 9 c && leb c 13) || (leb 28 c && leb c 31)

  abbrev pub is_blank : Bytes → Bool
  is_blank [] = true
  is_blank (c ∷ s) = is_space c && is_blank s

  lstrip : Bytes → Bytes
  lstrip [] = []
  lstrip (c ∷ s) = let rest = lstrip s in if is_space c then rest else c ∷ s

  rstrip : Bytes → Bytes
  rstrip [] = []
  rstrip (c ∷ s) = let rest = rstrip s in if is_blank (c ∷ s) then [] else c ∷ rest

  unfoldable pub strip : Bytes → Bytes
  unfolding lstrip rstrip
  strip s = rstrip (lstrip s)

  -- The sample of an error that a report holds, unless it is blank.
  unfoldable pub sample_of : Value py → Option Bytes
  unfolding get strip
  sample_of r = do
    sample ← get r (codes "sample_error")
    s ← text_of sample
    elim (strip s) [ [] ↦ none | c ∷ t ↦ some (c ∷ t) ]

  -- `plateau_seconds`
  unfoldable pub plateau_seconds : Value py → Option py.Number
  unfolding number
  plateau_seconds r = do
    requests ← number r (codes "plateau_requests")
    rps ← number r (codes "achieved_rps")
    if py.le rps (zero_number py) then none else some (py.div requests rps)
