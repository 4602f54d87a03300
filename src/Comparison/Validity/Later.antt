-- ===== src/Comparison/Validity/Later.antt =====
-- Later replicates and the findings.
use poseidon_tests.Prelude.{◌≡◌, refl, ap, ◌∙◌, true, List, [], ◌∷◌, ◌++◌, foldl, some, inr, All}
use poseidon_tests.Comparison.Numbers.{Numbers}
use poseidon_tests.Comparison.Value.{dict, Members, Value}
use poseidon_tests.Comparison.Dict.{cell_key, Cell, find, set_default}
use poseidon_tests.Comparison.Cells.{is_known}
use poseidon_tests.Comparison.Loading.{
  rpartition, File, Loaded, load_file, load_reports, accept_content, accept,
}
use poseidon_tests.Comparison.Loading.Replicates.{name-ne-output}
use poseidon_tests.Comparison.Validity.{validity_findings}

foldl-append {ℓ κ} :
    {A : Type ℓ} {B : Type κ} (f : B → A → B) (b : B) (xs ys : List A)
    → foldl f b (xs ++ ys) ≡ foldl f (foldl f b xs) ys
foldl-append f b [] ys = refl
foldl-append f b (x ∷ xs) ys = foldl-append f (f b x) xs ys

module _ (py : Numbers) where
  -- A readable report of a cell that has one.
  abbrev pub IsReplicate : List (Cell × Value py) → File py → Type 0
  IsReplicate runs f =
      (ms : Members py) × (r : Value py) × (f.content ≡ inr (dict ms))
      × (is_known (rpartition f.stem) ≡ true)
      × (find (rpartition f.stem) runs ≡ some r)

  -- Only the replicates of the load change.
  more-reps :
      (f : File py) (l : Loaded py)
      → IsReplicate l.runs f
      → load_file py l f ≡ record l { reps = (load_file py l f).reps }
  unfolding load_file accept_content accept
  more-reps f l (ms, r, readable, known, there) =
      rw (name-ne-output py f, readable, known, there, set_default) refl

  findings-load_file :
      (gs : List (File py)) (l : Loaded py)
      → All (IsReplicate l.runs) gs
      → validity_findings py (foldl (load_file py) l gs) ≡ validity_findings py l
  unfolding validity_findings
  findings-load_file [] l h = refl
  findings-load_file (g ∷ gs) l h =
      ap (λ l'. validity_findings py (foldl (load_file py) l' gs)) (more-reps g l h.0)
      ∙ findings-load_file gs (record l { reps = (load_file py l g).reps }) h.1

  -- Behind files that give every cell of theirs a report, further readable reports of these cells
  -- change no finding: an error that is counted in a later replicate, or a load that it missed, is not
  -- flagged.
  pub later_unchecked :
      (fs gs : List (File py))
      → All (IsReplicate (load_reports py fs).runs) gs
      → validity_findings py (load_reports py (fs ++ gs))
        ≡ validity_findings py (load_reports py fs)
  unfolding load_reports
  later_unchecked fs gs h =
      ap (validity_findings py) (foldl-append (load_file py) _ fs gs)
      ∙ findings-load_file gs (load_reports py fs) h
