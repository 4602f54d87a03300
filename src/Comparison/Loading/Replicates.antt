-- ===== src/Comparison/Loading/Replicates.antt =====
-- What `load_reports` keeps of each cell.
use mathlib.Core.Option.{or_else}
use poseidon_tests.Prelude.{
  ◌≡◌, refl, sym, ap, ◌∙◌, arith, Bool, true, false, List, [], ◌∷◌, ◌++◌, append-nil, append_assoc,
  foldl, Option, none, some, inl, inr, ◌⊎◌, Bytes, text_eq, text_eq_iff, codes, if◌then◌else◌,
  Bool-cases, get_last?,
}
use poseidon_tests.Comparison.Numbers.{Numbers}
use poseidon_tests.Comparison.Value.{Value, dict}
use poseidon_tests.Comparison.Dict.{
  name_key, cell_key, Cell, cell_eq, cell_eq_iff, find, find-assign, find-set_default, find_same,
}
use poseidon_tests.Comparison.Cells.{is_known, flat_map}
use poseidon_tests.Comparison.Loading.{
  rpartition, File, Loaded, name_of, output_name, nothing_loaded, refuse, accept, accept_content,
  append_to, load_file, load_reports, earlier,
}

abbrev pub head? {ℓ} : {A : Type ℓ} → List A → Option A
head? [] = none
head? (x ∷ xs) = some x

head?-append {ℓ} : {A : Type ℓ} (xs ys : List A) → head? (xs ++ ys) ≡ or_else (head? xs) (head? ys)
unfolding or_else
head?-append [] ys = refl
head?-append (x ∷ xs) ys = refl

or_else_assoc {ℓ} :
    {A : Type ℓ} (a b c : Option A) → or_else (or_else a b) c ≡ or_else a (or_else b c)
unfolding or_else
or_else_assoc none b c = refl
or_else_assoc (some x) b c = refl

get_last?-append {ℓ} :
    {A : Type ℓ} (xs ys : List A) (y : A) → get_last? (xs ++ (y ∷ ys)) ≡ get_last? (y ∷ ys)
get_last?-append [] ys y = refl
get_last?-append (x ∷ []) ys y = refl
get_last?-append (x ∷ x' ∷ xs) ys y = get_last?-append (x' ∷ xs) ys y

module _ (py : Numbers) where
  -- A listed file is never the document, since their names end apart.
  pub name-ne-output : (f : File py) → text_eq (name_of py f) output_name ≡ false
  name-ne-output f = elim (Bool-cases (text_eq (name_of py f) output_name)) [
    | inl same ↦
        let ends : get_last? (name_of py f) ≡ some b'd' =
          ap get_last? ((text_eq_iff (name_of py f) output_name).0 same) in
        let clash : some b'n' ≡ some b'd' =
          sym (get_last?-append f.stem (codes "json") b'.') ∙ ends in
        ground (arith, clash)
    | inr other ↦ other
  ]

  -- The report in a file, if it is readable and an object.
  abbrev pub report_of : Bytes ⊎ Value py → List (Value py)
  report_of (inr (dict ms)) = dict ms ∷ []
  report_of _ = []

  -- What a file gives to a cell: its report, if its name is the cell's.
  unfoldable pub share : Cell → File py → List (Value py)
  share c f = if cell_eq (rpartition f.stem) c then report_of f.content else []

  reps-append_to :
      (k c : Cell) (v : Value py) (d : List (Cell × List (Value py)))
      → earlier py (find c (append_to py k v d))
        ≡ earlier py (find c d) ++ (if cell_eq k c then v ∷ [] else [])
  unfolding append_to
  reps-append_to k c v d =
      ap (earlier py) (find-assign k c (earlier py (find k d) ++ v ∷ []) d)
      ∙ elim (Bool-cases (cell_eq k c)) [
        | inl same ↦ rw same (ap (λ o. earlier py o ++ v ∷ []) (find_same k c d same))
        | inr other ↦ rw other (sym (append-nil (earlier py (find c d))))
      ]

  -- A cell of another kind is no cell of the comparison.
  stranger : (k c : Cell) → is_known k ≡ false → is_known c ≡ true → cell_eq k c ≡ false
  stranger k c out known = elim (Bool-cases (cell_eq k c)) [
    | inl same ↦ cc (ap is_known ((cell_eq_iff k c).0 same))
    | inr other ↦ other
  ]

  or_else-none {ℓ} : {A : Type ℓ} (o : Option A) → or_else o none ≡ o
  unfolding or_else
  or_else-none none = refl
  or_else-none (some a) = refl

  head?-if :
      (b : Bool) (v : Value py) → (if b then some v else none) ≡ head? (if b then v ∷ [] else [])
  head?-if true v = refl
  head?-if false v = refl

  untouched :
      (b : Bool) (vs : List (Value py)) (o : Option (Value py))
      → (vs ≡ vs ++ (if b then [] else [])) × (o ≡ or_else o (head? (if b then [] else [])))
  untouched true vs o = (sym (append-nil vs), sym (or_else-none o))
  untouched false vs o = (sym (append-nil vs), sym (or_else-none o))

  module _ (c : Cell) (known : is_known c ≡ true) where
    runs-accept :
        (f : File py) (v : Value py) (l : Loaded py)
        → find c (accept py f v l).runs
          ≡ or_else (find c l.runs) (if cell_eq (rpartition f.stem) c then some v else none)
    unfolding accept
    runs-accept f v l = elim (Bool-cases (is_known (rpartition f.stem))) [
      | inl cell ↦ rw cell (find-set_default (rpartition f.stem) c v l.runs)
      | inr extra ↦
          rw (extra, stranger (rpartition f.stem) c extra known)
            (sym (or_else-none (find c l.runs)))
    ]

    reps-accept :
        (f : File py) (v : Value py) (l : Loaded py)
        → earlier py (find c (accept py f v l).reps)
          ≡ earlier py (find c l.reps) ++ (if cell_eq (rpartition f.stem) c then v ∷ [] else [])
    unfolding accept
    reps-accept f v l = elim (Bool-cases (is_known (rpartition f.stem))) [
      | inl cell ↦ rw cell (reps-append_to (rpartition f.stem) c v l.reps)
      | inr extra ↦
          rw (extra, stranger (rpartition f.stem) c extra known)
            (sym (append-nil (earlier py (find c l.reps))))
    ]

    -- One file adds its share to the cell, and is its run if it is the first.
    load_file-share :
        (f : File py) (l : Loaded py)
        → (earlier py (find c (load_file py l f).reps) ≡ earlier py (find c l.reps) ++ share c f)
          × (find c (load_file py l f).runs ≡ or_else (find c l.runs) (head? (share c f)))
    unfolding load_file share accept_content refuse
    load_file-share f l = rw (name-ne-output f) (go f.content)
      where
        go :
            (content : Bytes ⊎ Value py)
            → (earlier py (find c (accept_content py f content l).reps)
                ≡ earlier py (find c l.reps)
                  ++ (if cell_eq (rpartition f.stem) c then report_of content else []))
              × (find c (accept_content py f content l).runs
                  ≡ or_else
                      (find c l.runs)
                      (head? (if cell_eq (rpartition f.stem) c then report_of content else [])))
        go (inl reason) = untouched (cell_eq (rpartition f.stem) c) _ _
        go (inr (dict ms)) = (
          reps-accept f (dict ms) l,
          runs-accept f (dict ms) l
              ∙ ap (or_else (find c l.runs)) (head?-if (cell_eq (rpartition f.stem) c) (dict ms)),
        )
        go (inr v) = untouched (cell_eq (rpartition f.stem) c) _ _

    load_files-shares :
        (fs : List (File py)) (l : Loaded py)
        → (earlier py (find c (foldl (load_file py) l fs).reps)
            ≡ earlier py (find c l.reps) ++ flat_map (share c) fs)
          × (find c (foldl (load_file py) l fs).runs
              ≡ or_else (find c l.runs) (head? (flat_map (share c) fs)))
    load_files-shares [] l = (sym (append-nil _), sym (or_else-none _))
    load_files-shares (f ∷ fs) l =
        let (reps, runs) = load_files-shares fs (load_file py l f) in
        let (reps', runs') = load_file-share f l in
        (
          reps
              ∙ ap (λ vs. vs ++ flat_map (share c) fs) reps'
              ∙ append_assoc (earlier py (find c l.reps)) (share c f) (flat_map (share c) fs),
          runs
              ∙ ap (λ o. or_else o (head? (flat_map (share c) fs))) runs'
              ∙ or_else_assoc (find c l.runs) (head? (share c f)) (head? (flat_map (share c) fs))
              ∙ ap (or_else (find c l.runs))
                  (sym (head?-append (share c f) (flat_map (share c) fs))),
        )

    -- For each cell of the comparison, the replicates that are loaded are the readable reports of the
    -- files with its name, in the order of the listing, and its run is the first of them: a file that
    -- cannot be read, is no object or has another name gives it nothing and takes nothing from it.
    pub load_reports-shares :
        (fs : List (File py))
        → (earlier py (find c (load_reports py fs).reps) ≡ flat_map (share c) fs)
          × (find c (load_reports py fs).runs ≡ head? (flat_map (share c) fs))
    unfolding load_reports nothing_loaded find or_else
    load_reports-shares fs = load_files-shares fs (nothing_loaded py)
