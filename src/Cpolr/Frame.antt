-- ===== src/Cpolr/Frame.antt =====
-- The handlers of pkg/api/cpolr.go touch no other key than those of cluster reports of their own API
-- version: namespaced reports, which stand in the same storage, are left alone.
use policy_server.Prelude.{◌≡◌, refl, ◌∙◌, Bool, true, false, Option, List, [], ◌∷◌}
use policy_server.Prelude.Texts.{Text, text_eq, text_eq_sym}
use policy_server.Result.{Error}
use policy_server.Result.Keeps.{
  Keeps, pure-Keeps, or_fail-Keeps, attempt-Keeps, if-Keeps, bind-Keeps, keeps_rules,
}
use policy_server.Handler.Frame.{
  Has, update_call-Has, delete_call-Has, list_call-Has, broadcast-Has, fresh_uid-Has,
  current_time-Has, check_validation-Has, raise_if-Has, as_report-Has, must_report-Has,
}
use policy_server.Storage.{Storage}
use policy_server.Storage.Contract.{Contract}
use policy_server.Report.{Platform}
use policy_server.Handler.{
  WriteOptions, is_dry_run, ListOptions, ReportOf, ObjectOf, State, Handler, UpdatedObjectInfo,
}
use policy_server.Cpolr.{
  key, get_cpolr, list_cpolr, create_cpolr, next_version, update_polr, delete_polr, cpolr_to_obj,
  list, get, create_stored, create, update_forced, update_checked, update, delete_report, delete,
  delete_loop, delete_collection_by, delete_collection,
}
use policy_server.Cpolr.Reads.{get_cpolr-state}
use policy_server.Polr
use policy_server.Polr.Reads as PolrReads
use policy_server.Polr.Frame.{key-ne-cluster}

module _ (P : Platform) (S : Storage) where
  -- The states after any requests to cluster reports from the state `s`.
  pub data Reach (s : State P S) : State P S → Type 0 where
    start : Reach s s
    created :
        {t : State P S} (validate : ObjectOf P → Option Error) (obj : ObjectOf P)
        (options : WriteOptions)
        → Reach s t
        → Reach s (create P S validate obj options t).1
    updated :
        {t : State P S} (info : UpdatedObjectInfo P S)
        (validate : Option (ObjectOf P) → ReportOf P → Option Error) (name : Text) (force : Bool)
        (options : WriteOptions)
        → Reach s t
        → Reach s (update P S info validate name force options t).1
    deleted :
        {t : State P S} (validate : ReportOf P → Option Error) (name : Text)
        (options : WriteOptions)
        → Reach s t
        → Reach s (delete P S validate options name t).1
    cleared :
        {t : State P S} (validate : ReportOf P → Option Error) (options : WriteOptions)
        (list_options : Option (ListOptions P))
        → Reach s t
        → Reach s (delete_collection P S validate options list_options t).1
    listed :
        {t : State P S} (options : Option (ListOptions P))
        → Reach s t
        → Reach s (list P S options t).1
    read : {t : State P S} (name : Text) → Reach s t → Reach s (get P S name t).1

module _ (P : Platform) (S : Storage) (C : Contract S) (k : Text)
    (other : (name : Text) → text_eq (key P.group_version name) k ≡ false) (x : Option Text) where
  get_cpolr-Has : (name : Text) → Keeps (Has P S C k x) (get_cpolr P S name)
  get_cpolr-Has name = record { after = λ s i. rw ((get_cpolr-state P S C name s i.ready).same) i }

  create_cpolr-Has : (r : ReportOf P) → Keeps (Has P S C k x) (create_cpolr P S r)
  unfolding create_cpolr
  create_cpolr-Has r = bind-Keeps _ _ (fresh_uid-Has P S C k x) λ uid.
      bind-Keeps _ _ (current_time-Has P S C k x)
        λ now. search (keeps_rules, update_call-Has P S C k x, other)

  create-Has :
      (validate : ObjectOf P → Option Error) (obj : ObjectOf P) (options : WriteOptions)
      → Keeps (Has P S C k x) (create P S validate obj options)
  unfolding create create_stored
  create-Has validate obj options =
      search
        (
          keeps_rules,
          check_validation-Has P S C k x,
          as_report-Has P S C k x,
          create_cpolr-Has,
          broadcast-Has P S C k x,
        )
        depth 14

  next_version-Has :
      (r : ReportOf P) (force : Bool) → Keeps (Has P S C k x) (next_version P S r force)
  unfolding next_version
  next_version-Has r true = pure-Keeps _
  next_version-Has r false = search (keeps_rules, get_cpolr-Has)

  update_polr-Has :
      (r : ReportOf P) (force : Bool) → Keeps (Has P S C k x) (update_polr P S r force)
  unfolding update_polr
  update_polr-Has r force =
      search (keeps_rules, next_version-Has, update_call-Has P S C k x, other) depth 9

  update-Has :
      (info : UpdatedObjectInfo P S) (validate : Option (ObjectOf P) → ReportOf P → Option Error)
      (name : Text) (force : Bool) (options : WriteOptions)
      → Keeps (Has P S C k x) (update P S info validate name force options)
  unfolding update update_forced update_checked create_stored
  update-Has info validate name true options =
      search
        (
          keeps_rules,
          attempt-Keeps,
          get_cpolr-Has,
          must_report-Has P S C k x,
          update_polr-Has,
          broadcast-Has P S C k x,
        )
        depth 12
  update-Has info validate name false options =
      search
        (
          keeps_rules,
          get_cpolr-Has,
          raise_if-Has P S C k x,
          check_validation-Has P S C k x,
          as_report-Has P S C k x,
          create_cpolr-Has,
          broadcast-Has P S C k x,
        )
        depth 14

  delete-Has :
      (validate : ReportOf P → Option Error) (options : WriteOptions) (name : Text)
      → Keeps (Has P S C k x) (delete P S validate options name)
  unfolding delete delete_report delete_polr cpolr_to_obj
  delete-Has validate options name =
      search
        (
          keeps_rules,
          get_cpolr-Has,
          raise_if-Has P S C k x,
          delete_call-Has P S C k x,
          other,
          broadcast-Has P S C k x,
        )
        depth 12

  list-Has : (options : Option (ListOptions P)) → Keeps (Has P S C k x) (list P S options)
  unfolding list list_cpolr
  list-Has options = search (keeps_rules, list_call-Has P S C k x) depth 9

  delete_loop-Has :
      (delete_one : Text → Handler P S (ObjectOf P)) (rs : List (ReportOf P))
      → ((name : Text) → Keeps (Has P S C k x) (delete_one name))
      → Keeps (Has P S C k x) (delete_loop P S delete_one rs)
  unfolding delete_loop
  delete_loop-Has delete_one [] h = pure-Keeps _
  delete_loop-Has delete_one (r ∷ rs) h =
      bind-Keeps _ _ (or_fail-Keeps _ _ (h r.name))
        λ obj. bind-Keeps _ _ (broadcast-Has P S C k x _ _) λ _. delete_loop-Has delete_one rs h

  delete_collection-Has :
      (validate : ReportOf P → Option Error) (options : WriteOptions)
      (list_options : Option (ListOptions P))
      → Keeps (Has P S C k x) (delete_collection P S validate options list_options)
  unfolding delete_collection delete_collection_by
  delete_collection-Has validate options list_options =
      bind-Keeps _ _ (or_fail-Keeps _ _ (list-Has list_options)) λ found.
        if-Keeps (is_dry_run options) _ _ (pure-Keeps _) (
          bind-Keeps _ _ (delete_loop-Has _ found.items (delete-Has validate options))
            λ _. pure-Keeps _)

  Reach-Has : {s t : State P S} → Has P S C k x s → Reach P S s t → Has P S C k x t
  unfolding get
  Reach-Has i start = i
  Reach-Has i (created validate obj options r) =
      (create-Has validate obj options).after _ (Reach-Has i r)
  Reach-Has i (updated info validate name force options r) =
      (update-Has info validate name force options).after _ (Reach-Has i r)
  Reach-Has i (deleted validate name options r) =
      (delete-Has validate options name).after _ (Reach-Has i r)
  Reach-Has i (cleared validate options list_options r) =
      (delete_collection-Has validate options list_options).after _ (Reach-Has i r)
  Reach-Has i (listed options r) = (list-Has options).after _ (Reach-Has i r)
  Reach-Has i (read name r) = (or_fail-Keeps _ _ (get_cpolr-Has name)).after _ (Reach-Has i r)

module _ (P : Platform) (S : Storage) (C : Contract S) where
  -- Over a ready storage, any requests to cluster reports, valid or not, leave the stored bytes of
  -- every namespaced report as they are.
  pub policy_reports_kept :
      (name namespace : Text) (s t : State P S)
      → C.Ready s.store
      → Reach P S s t
      → PolrReads.held P S C name namespace t ≡ PolrReads.held P S C name namespace s
  policy_reports_kept name namespace s t ready reach =
      (Reach-Has P S C (Polr.key P.group_version name namespace)
        (λ cluster. text_eq_sym _ _ ∙ key-ne-cluster P S C name namespace cluster)
        (PolrReads.held P S C name namespace s) (record { ready = ready; has = refl }) reach).has
