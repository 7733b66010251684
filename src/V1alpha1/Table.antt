-- ===== src/V1alpha1/Table.antt =====
-- pkg/api/v1alpha1/table.go: the text of pkg/api/table.go at the types of v1alpha1.
use policy_server.Prelude.{ℕ, List}
use policy_server.Prelude.Texts.{Text}
use policy_server.Report.{Platform}
use policy_server.Handler.{ReportOf}
use policy_server.Table

module _ (P : Platform) (age_text : ℕ → ℕ → Text) where
  -- `addPolicyReportToTable`
  unfoldable pub add_policy_report_to_table :
      Table.Table P age_text → List (ReportOf P) → P.World → Table.Table P age_text × P.World
  unfolding Table.add_policy_report_to_table
  add_policy_report_to_table = Table.add_policy_report_to_table P age_text

  -- `addClusterPolicyReportToTable`
  unfoldable pub add_cluster_policy_report_to_table :
      Table.Table P age_text → List (ReportOf P) → P.World → Table.Table P age_text × P.World
  unfolding Table.add_cluster_policy_report_to_table
  add_cluster_policy_report_to_table = Table.add_cluster_policy_report_to_table P age_text
