-- ===== src/Comparison/Document.antt =====
-- `render_raw`, `build_document` and `main`. The document is kept as the values of its parts, which the
-- code prints as Markdown.
use poseidon_tests.Prelude.{ℕ, Bool, List, [], ◌∷◌, map, Option, Bytes, codes, if◌then◌else◌}
use poseidon_tests.Comparison.Numbers.{Numbers}
use poseidon_tests.Comparison.Value.{Value, number, on}
use poseidon_tests.Comparison.Dict.{cell_key, Cell, find}
use poseidon_tests.Comparison.Cells.{cells, flat_map}
use poseidon_tests.Comparison.Loading.{File, Loaded, load_reports}
use poseidon_tests.Comparison.Tables.{Metric, metrics, Row, table}
use poseidon_tests.Comparison.Validity.{Finding, validity_findings}

module _ (py : Numbers) where
  pub record RawRow : Type 0 where
    pub cell : Cell
    pub requests : Option py.Number
    pub errors : Option py.Number
    pub non_2xx : Option py.Number
    pub rps : Option py.Number

  unfoldable pub raw_row : Cell → Value py → RawRow
  raw_row c r = record {
    cell = c;
    requests = number py r (codes "plateau_requests");
    errors = number py r (codes "plateau_errors");
    non_2xx = number py r (codes "plateau_non_2xx");
    rps = number py r (codes "achieved_rps");
  }

  -- An empty list is printed as "no readable reports found".
  unfoldable pub raw_rows : List (Cell × Value py) → List RawRow
  raw_rows runs = flat_map (λ c. on (find c runs) λ r. raw_row c r ∷ []) cells

  pub record Document : Type 0 where
    pub directory : Bytes
    pub tables : List (Metric × List (Row py))
    pub validity : List (Finding py)
    pub raw : List RawRow

  unfoldable pub build_document : Bytes → Loaded py → Document
  build_document directory l = record {
    directory = directory;
    tables = map (λ m. (m, table py l.reps m)) metrics;
    validity = validity_findings py l;
    raw = raw_rows l.runs;
  }

  -- What the file system answers: whether a path is a directory, the files in it, and whether the
  -- document cannot be written there.
  pub record FileSystem : Type 0 where
    pub is_dir : Bytes → Bool
    pub listing : Bytes → List (File py)
    pub write_fails : Bytes → Bool

  pub data Effect : Type 0 where
    directory_not_found : Bytes → Effect
    printed wrote : Document → Effect
    could_not_write : Bytes → Effect

  -- What `main` does, and its exit code. `argv` is what stands behind the name of the script.
  unfoldable pub report_on : FileSystem → Bytes → List Effect × ℕ
  report_on fs directory =
      if fs.is_dir directory
      then (let document = build_document directory (load_reports py (fs.listing directory)) in
          if fs.write_fails directory
          then (printed document ∷ could_not_write directory ∷ [], 1)
          else (printed document ∷ wrote document ∷ [], 0))
      else (directory_not_found directory ∷ [], 2)

  unfoldable pub main : FileSystem → List Bytes → List Effect × ℕ
  unfolding report_on
  main fs [] = report_on fs (codes "results")
  main fs (directory ∷ argv) = report_on fs directory
