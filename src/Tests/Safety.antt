-- ===== src/Tests/Safety.antt =====
-- The theorems on failed requests and dry runs for cluster reports, and on what such requests leave
-- alone, at concrete inputs.
use policy_server.Prelude.{◌≡◌, refl, false, Option, none, some}
use policy_server.Prelude.Texts.{codes, text_eq, contains}
use policy_server.Result.{Error, Failed, foreign}
use policy_server.Report.{report}
use policy_server.Handler.{is_dry_run, ReportOf, ObjectOf, Untouched, UpdatedObjectInfo}
use policy_server.Cpolr.{create, update, delete, delete_collection}
use policy_server.Polr
use policy_server.DryRuns.{Quiet, dry_runs}
use policy_server.Cpolr.Atomic.{cluster_writes-Failed}
use policy_server.Cpolr.Frame.{start, created, policy_reports_kept}
use policy_server.Polr.Reads.{held}
use policy_server.Tests.{sample}
use policy_server.Tests.Setup.{
  memory, law, fresh, fresh-IsOpen, stocked, stocked-IsOpen, real, dry, valid, first,
}

abbrev replace_by_first : UpdatedObjectInfo sample memory
replace_by_first old = (some (report first), none)

abbrev accepting : Option (ObjectOf sample) → ReportOf sample → Option Error
accepting obj old = none

abbrev refusing : ReportOf sample → Option Error
refusing r = some (foreign (codes "no"))

cluster_writes-Failed_example :
    (Failed (create sample memory valid (report first) real fresh).0
      → Untouched sample memory fresh (create sample memory valid (report first) real fresh).1)
    × (Failed (update sample memory replace_by_first accepting (codes "a") false real fresh).0
        → Untouched sample memory fresh
            (update sample memory replace_by_first accepting (codes "a") false real fresh).1)
cluster_writes-Failed_example =
    cluster_writes-Failed sample memory law valid replace_by_first accepting (codes "a")
      (report first) real fresh fresh-IsOpen

policy_reports_kept_example :
    held sample memory law
      (codes "a")
      (codes "ns")
      (create sample memory valid (report first) real stocked).1
    ≡ held sample memory law (codes "a") (codes "ns") stocked
policy_reports_kept_example =
    policy_reports_kept sample memory law (codes "a") (codes "ns") stocked
      (create sample memory valid (report first) real stocked).1 stocked-IsOpen
      (created valid (report first) real start)

dry_runs_example :
    (((Polr.create sample memory valid (codes "ns") (report first) dry stocked).1 ≡ stocked)
      × ((Polr.update sample memory replace_by_first accepting
            (codes "ns")
            (codes "a")
            false
            dry
            stocked).1
          ≡ stocked)
      × ((Polr.delete sample memory refusing (codes "ns") dry (codes "a") stocked).1 ≡ stocked)
      × Quiet sample memory law stocked
          (Polr.delete_collection sample memory refusing (codes "ns") dry none stocked).1)
    × (((create sample memory valid (report first) dry stocked).1 ≡ stocked)
        × ((update sample memory replace_by_first accepting (codes "a") false dry stocked).1
            ≡ stocked)
        × ((delete sample memory refusing dry (codes "a") stocked).1 ≡ stocked)
        × Quiet sample memory law stocked
            (delete_collection sample memory refusing dry none stocked).1)
unfolding is_dry_run contains text_eq
dry_runs_example =
    dry_runs sample memory law valid replace_by_first accepting refusing (codes "ns") (codes "a")
      (report first) none dry stocked stocked-IsOpen refl
