-- ===== src/Table.antt =====
-- pkg/api/table.go, with its copies in pkg/api/v1alpha1, pkg/api/v1alpha2 and pkg/api/v1beta1, and
-- `ConvertToTable` of the report stores: how reports are printed.
pub mod Rows
use policy_server.Prelude.{ℕ, List, [], ◌∷◌, ◌++◌}
use policy_server.Prelude.Texts.{Text, codes}
use policy_server.Strconv.{ℤ}
use policy_server.Report.{Platform, report, report_list}
use policy_server.Handler.{ReportOf, ObjectOf}

-- `metav1beta1.TableColumnDefinition`
pub record TableColumnDefinition : Type 0 where
  pub column_name : Text
  pub column_type : Text
  pub format : Text
  pub description : Text

-- A cell holds a value of any type: here a string or an int.
pub data Cell : Type 0 where
  text_cell : Text → Cell
  int_cell : ℤ → Cell

abbrev plain_column : Text → Text → Text → TableColumnDefinition
plain_column name kind format = record {
  column_name = name;
  column_type = kind;
  format = format;
  description = [];
}

abbrev pub report_columns : List TableColumnDefinition
report_columns =
    record {
      column_name = codes "Name";
      column_type = codes "string";
      format = codes "name";
      description = codes "Name of the resource";
    }
    ∷ plain_column (codes "Pass") (codes "integer") (codes "string")
    ∷ plain_column (codes "Fail") (codes "integer") (codes "string")
    ∷ plain_column (codes "Warn") (codes "integer") (codes "string")
    ∷ plain_column (codes "Error") (codes "integer") (codes "string")
    ∷ plain_column (codes "Skip") (codes "integer") (codes "string")
    ∷ plain_column (codes "Age") (codes "string") (codes "duration")
    ∷ []

-- `age_text` is `time.Since(created).Truncate(time.Second).String()`, from the present time.
module _ (P : Platform) (age_text : ℕ → ℕ → Text) where
  -- `metav1beta1.TableRow`
  pub record TableRow : Type 0 where
    pub cells : List Cell
    pub object : ReportOf P

  -- `metav1beta1.Table`
  pub record Table : Type 0 where
    pub resource_version : Text
    pub self_link : Text
    pub continue_token : Text
    pub column_definitions : List TableColumnDefinition
    pub rows : List TableRow

  abbrev pub empty_table : Table
  empty_table = record {
    resource_version = [];
    self_link = [];
    continue_token = [];
    column_definitions = [];
    rows = [];
  }

  -- The cells of a report at the present time `now`.
  unfoldable pub row_cells : ℕ → ReportOf P → List Cell
  row_cells now r =
      text_cell r.name
      ∷ int_cell r.summary.pass
      ∷ int_cell r.summary.fail
      ∷ int_cell r.summary.warn
      ∷ int_cell r.summary.error
      ∷ int_cell r.summary.skip
      ∷ text_cell (age_text now r.creation_timestamp)
      ∷ []

  -- `addPolicyReportToTable`: each round sets the columns, and reads
  -- the clock for the age.
  unfoldable pub add_policy_report_to_table : Table → List (ReportOf P) → P.World → Table × P.World
  add_policy_report_to_table table [] w = (table, w)
  add_policy_report_to_table table (r ∷ rs) w =
      let (now, w') = P.now w in
      add_policy_report_to_table
        (record table {
          column_definitions = report_columns;
          rows = table.rows ++ (record { cells = row_cells now r; object = r } ∷ []);
        })
        rs w'

  -- `addClusterPolicyReportToTable`: the text of `addPolicyReportToTable`.
  unfoldable pub add_cluster_policy_report_to_table :
      Table → List (ReportOf P) → P.World → Table × P.World
  unfolding add_policy_report_to_table
  add_cluster_policy_report_to_table = add_policy_report_to_table

  -- `ConvertToTable`
  unfoldable pub convert_to_table : ObjectOf P → P.World → Table × P.World
  convert_to_table (report r) w =
      add_policy_report_to_table
        (record empty_table { resource_version = r.resource_version; self_link = r.self_link })
        (r ∷ []) w
  convert_to_table (report_list l) w =
      add_policy_report_to_table
        (record empty_table {
          resource_version = l.list_resource_version;
          self_link = l.list_self_link;
          continue_token = l.continue_token;
        })
        l.items w
  convert_to_table _ w = (empty_table, w)
