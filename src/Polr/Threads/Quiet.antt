-- ===== src/Polr/Threads/Quiet.antt =====
-- The steps of the threads of pkg/api/polr.go that make no call to the broadcaster.
use policy_server.Prelude.{true, List}
use policy_server.Result.Keeps.{Keeps, keeps_rules, bind-Keeps}
use policy_server.Storage.{Storage}
use policy_server.Report.{Platform}
use policy_server.Prelude.Texts.{Text}
use policy_server.Handler.{Call, ReportOf}
use policy_server.Handler.Silent.{
  Said, stored-Said, fresh_uid-Said, current_time-Said, check_validation-Said, raise_if-Said,
  as_report-Said, must_report-Said,
}
use policy_server.Polr.{get_polr, create_polr, next_version, update_polr, delete_polr, polr_to_obj}
use policy_server.Polr.Threads.{
  CreateRequest, UpdateRequest, DeleteRequest, create_step, update_step, version_step,
  write_version, write_step, force_step, force_write, delete_step, remove_step,
}

module _ (P : Platform) (S : Storage) (cs : List (Call P)) where
  get_polr-Said : (name namespace : Text) → Keeps (Said P S cs) (get_polr P S name namespace)
  unfolding get_polr
  get_polr-Said name namespace = search (keeps_rules, stored-Said P S cs)

  create_polr-Said : (r : ReportOf P) → Keeps (Said P S cs) (create_polr P S r)
  unfolding create_polr
  create_polr-Said r = bind-Keeps _ _ (fresh_uid-Said P S cs) λ uid.
      bind-Keeps _ _ (current_time-Said P S cs) λ now. search (keeps_rules, stored-Said P S cs)

  update_polr-Said : (r : ReportOf P) → Keeps (Said P S cs) (update_polr P S r true)
  unfolding update_polr next_version
  update_polr-Said r = search (keeps_rules, stored-Said P S cs) depth 9

  delete_polr-Said : (r : ReportOf P) → Keeps (Said P S cs) (delete_polr P S r)
  unfolding delete_polr
  delete_polr-Said r = search (keeps_rules, stored-Said P S cs)

  pub create_step-Said : (q : CreateRequest P S) → Keeps (Said P S cs) (create_step P S q)
  unfolding create_step
  create_step-Said q =
      search (keeps_rules, check_validation-Said P S cs, as_report-Said P S cs, create_polr-Said)
        depth 12

  pub update_step-Said : (q : UpdateRequest P S) → Keeps (Said P S cs) (update_step P S q)
  unfolding update_step
  update_step-Said q =
      search
        (
          keeps_rules,
          get_polr-Said,
          raise_if-Said P S cs,
          check_validation-Said P S cs,
          as_report-Said P S cs,
        )
        depth 12

  pub version_step-Said : (r : ReportOf P) → Keeps (Said P S cs) (version_step P S r)
  unfolding version_step next_version
  version_step-Said r = search (keeps_rules, get_polr-Said) depth 9

  pub write_step-Said : (r : ReportOf P) → Keeps (Said P S cs) (write_step P S r)
  unfolding write_step write_version
  write_step-Said r = search (keeps_rules, stored-Said P S cs) depth 9

  pub force_step-Said : (q : UpdateRequest P S) → Keeps (Said P S cs) (force_step P S q)
  unfolding force_step
  force_step-Said q = search (keeps_rules, get_polr-Said, must_report-Said P S cs) depth 9

  pub force_write-Said : (r : ReportOf P) → Keeps (Said P S cs) (force_write P S r)
  unfolding force_write
  force_write-Said r = search (keeps_rules, update_polr-Said)

  pub polr_to_obj-Said : (r : ReportOf P) → Keeps (Said P S cs) (polr_to_obj P S r)
  unfolding polr_to_obj
  polr_to_obj-Said r = search keeps_rules

  pub delete_step-Said : (q : DeleteRequest P S) → Keeps (Said P S cs) (delete_step P S q)
  unfolding delete_step
  delete_step-Said q =
      search (keeps_rules, get_polr-Said, raise_if-Said P S cs, polr_to_obj-Said) depth 12

  pub remove_step-Said : (r : ReportOf P) → Keeps (Said P S cs) (remove_step P S r)
  unfolding remove_step
  remove_step-Said r = search (keeps_rules, delete_polr-Said)
