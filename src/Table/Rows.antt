-- ===== src/Table/Rows.antt =====
-- The rows of a table stand for the reports of a list.
use mathlib.Core.List.{append_assoc, append-nil}
use policy_server.Prelude.{ℕ, ◌≡◌, refl, ap, ◌∙◌, List, [], ◌∷◌, ◌++◌, map}
use policy_server.Prelude.Texts.{Text}
use policy_server.Report.{Platform, ReportList, report_list}
use policy_server.Handler.{ReportOf}
use policy_server.Prelude.Texts.{codes}
use policy_server.Table.{
  Cell, text_cell, int_cell, TableColumnDefinition, report_columns, TableRow, Table, row_cells,
  add_policy_report_to_table, convert_to_table,
}

-- The name and the type of each column of a table with rows.
abbrev pub headings : List (Text × Text)
headings =
    (codes "Name", codes "string")
    ∷ (codes "Pass", codes "integer")
    ∷ (codes "Fail", codes "integer")
    ∷ (codes "Warn", codes "integer")
    ∷ (codes "Error", codes "integer")
    ∷ (codes "Skip", codes "integer")
    ∷ (codes "Age", codes "string")
    ∷ []

abbrev pub heading : TableColumnDefinition → Text × Text
heading c = (c.column_name, c.column_type)

module _ (P : Platform) (age_text : ℕ → ℕ → Text) where
  -- What stands under the headings for a report.
  abbrev pub printed : ℕ → ReportOf P → List Cell
  printed now r =
      text_cell r.name
      ∷ int_cell r.summary.pass
      ∷ int_cell r.summary.fail
      ∷ int_cell r.summary.warn
      ∷ int_cell r.summary.error
      ∷ int_cell r.summary.skip
      ∷ text_cell (age_text now r.creation_timestamp)
      ∷ []

  -- The rows of reports, whose ages are taken one after the other.
  abbrev pub timed_rows : List (ReportOf P) → P.World → List (TableRow P age_text)
  timed_rows [] w = []
  timed_rows (r ∷ rs) w =
      let (now, w') = P.now w in record { cells = printed now r; object = r } ∷ timed_rows rs w'

  abbrev columns_for : List (ReportOf P) → List TableColumnDefinition → List TableColumnDefinition
  columns_for [] before = before
  columns_for (r ∷ rs) before = report_columns

  timed_rows-object :
      (rs : List (ReportOf P)) (w : P.World) → map (λ row. row.object) (timed_rows rs w) ≡ rs
  timed_rows-object [] w = refl
  timed_rows-object (r ∷ rs) w =
      ap (λ (l : List (ReportOf P)). r ∷ l) (timed_rows-object rs (P.now w).1)

  columns_for-set : (rs : List (ReportOf P)) → columns_for rs report_columns ≡ report_columns
  columns_for-set [] = refl
  columns_for-set (r ∷ rs) = refl

  -- A list without items has no columns.
  abbrev pub headings_for : List (ReportOf P) → List (Text × Text)
  headings_for [] = []
  headings_for (r ∷ rs) = headings

  columns_for-heading : (rs : List (ReportOf P)) → map heading (columns_for rs []) ≡ headings_for rs
  columns_for-heading [] = refl
  columns_for-heading (r ∷ rs) = refl

  added_rows :
      (rs : List (ReportOf P)) (w : P.World) (table : Table P age_text)
      → (add_policy_report_to_table P age_text table rs w).0 ≡ record table {
        column_definitions = columns_for rs table.column_definitions;
        rows = table.rows ++ timed_rows rs w;
      }
  unfolding add_policy_report_to_table row_cells
  added_rows [] w table = rw append-nil refl
  added_rows (r ∷ rs) w table =
      added_rows rs (P.now w).1 _ ∙ (rw (columns_for-set, append_assoc) refl)

  -- The table of a list has one row for each item, in order, with the item itself and seven cells:
  -- its name, its counts of passes, failures, warnings, errors and skips, and its age, the ages
  -- taken one after the other. Its columns have the names and types of these cells, in the same
  -- order, unless the list is empty; then it has none. It has the version, self link and continue
  -- token of the list.
  pub list_table :
      (l : ReportList P.Body) (w : P.World)
      → let t = (convert_to_table P age_text (report_list l) w).0 in
        (t.rows ≡ timed_rows l.items w)
        × (map (λ row. row.object) t.rows ≡ l.items)
        × (map heading t.column_definitions ≡ headings_for l.items)
        × (t.resource_version ≡ l.list_resource_version)
        × (t.self_link ≡ l.list_self_link)
        × (t.continue_token ≡ l.continue_token)
  unfolding convert_to_table
  list_table l w =
      rw added_rows
        (refl, timed_rows-object l.items w, columns_for-heading l.items, refl, refl, refl)
