-- ===== src/Comparison/Loading.antt =====
-- `load_reports`.
pub mod Replicates
pub mod Names
use poseidon_tests.Prelude.{
  List, [], ◌∷◌, ◌++◌, foldl, Option, none, some, ◌⊎◌, inl, inr, Bytes, codes, text_eq,
  if◌then◌else◌, ◌==◌,
}
use poseidon_tests.Comparison.Numbers.{Numbers}
use poseidon_tests.Comparison.Value.{Value, dict}
use poseidon_tests.Comparison.Dict.{name_key, cell_key, Cell, find, assign, set_default}
use poseidon_tests.Comparison.Cells.{is_known}

-- `path.stem.rpartition("-")`: what stands before the last dash, or nothing, and what is behind it.
unfoldable pub behind_dash : Bytes → Option (Bytes × Bytes)
behind_dash [] = none
behind_dash (c ∷ s) = elim (behind_dash s) [
  | some (head, tail) ↦ some (c ∷ head, tail)
  | none ↦ if c == b'-' then some ([], s) else none
]

unfoldable pub rpartition : Bytes → Cell
rpartition s = elim (behind_dash s) [ some parts ↦ parts | none ↦ ([], s) ]

abbrev pub output_name : Bytes
output_name = codes "COMPARISON.md"

-- What `except` keeps of a value that is no object.
abbrev pub not_an_object : Bytes
not_an_object = codes "top-level JSON value is not an object"

module _ (py : Numbers) where
  -- A file of the listing, whose name is its stem and ".json": the reason of an `OSError` or a
  -- `ValueError`, or the value that its text stands for.
  pub record File : Type 0 where
    pub stem : Bytes
    pub content : Bytes ⊎ Value py

  abbrev pub name_of : File → Bytes
  name_of f = f.stem ++ codes ".json"

  -- `unreadable` is the set as the list of its insertions.
  pub record Loaded : Type 0 where
    pub runs : List (Cell × Value py)
    pub reps : List (Cell × List (Value py))
    pub load_errors : List (Bytes × Bytes)
    pub extra_files : List Bytes
    pub unreadable : List Cell

  unfoldable pub nothing_loaded : Loaded
  nothing_loaded = record {
    runs = [];
    reps = [];
    load_errors = [];
    extra_files = [];
    unreadable = [];
  }

  -- `load_errors[path.name] = reason`, and the cell that is lost.
  unfoldable pub refuse : File → Bytes → Loaded → Loaded
  unfolding rpartition is_known assign
  refuse f reason l = record l {
    load_errors = assign (name_of f) reason l.load_errors;
    unreadable =
        if is_known (rpartition f.stem) then rpartition f.stem ∷ l.unreadable else l.unreadable;
  }

  abbrev pub earlier : Option (List (Value py)) → List (Value py)
  earlier none = []
  earlier (some vs) = vs

  -- `reps.setdefault(k, []).append(data)`
  unfoldable pub append_to :
      Cell → Value py → List (Cell × List (Value py)) → List (Cell × List (Value py))
  unfolding find assign
  append_to k data_value d = assign k (earlier (find k d) ++ data_value ∷ []) d

  unfoldable pub accept : File → Value py → Loaded → Loaded
  unfolding rpartition is_known set_default append_to
  accept f v l =
      if is_known (rpartition f.stem)
      then record l {
        runs = set_default (rpartition f.stem) v l.runs;
        reps = append_to (rpartition f.stem) v l.reps;
      }
      else record l { extra_files = l.extra_files ++ name_of f ∷ [] }

  unfoldable pub accept_content : File → Bytes ⊎ Value py → Loaded → Loaded
  unfolding refuse accept
  accept_content f (inl reason) l = refuse f reason l
  accept_content f (inr (dict ms)) l = accept f (dict ms) l
  accept_content f (inr _) l = refuse f not_an_object l

  unfoldable pub load_file : Loaded → File → Loaded
  unfolding accept_content
  load_file l f = if text_eq (name_of f) output_name then l else accept_content f f.content l

  -- The listing: the files of the directory, and then those of its subdirectories `rep*`, each part
  -- in the order of `sorted`.
  unfoldable pub load_reports : List File → Loaded
  unfolding load_file nothing_loaded
  load_reports files = foldl load_file nothing_loaded files
