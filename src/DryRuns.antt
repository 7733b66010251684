-- ===== src/DryRuns.antt =====
-- Dry runs of the handlers of pkg/api/polr.go and pkg/api/cpolr.go.
use policy_server.Prelude.{◌≡◌, true, false, Option, arith}
use policy_server.Prelude.Texts.{Text}
use policy_server.Result.{Error, ◌>>=◌}
use policy_server.Storage.{Storage}
use policy_server.Storage.Contract.{Contract}
use policy_server.Report.{Platform}
use policy_server.Handler.{
  WriteOptions, is_dry_run, ListOptions, ReportOf, ObjectOf, State, UpdatedObjectInfo,
}
use policy_server.Polr.{create, update, delete, delete_collection}
use policy_server.Polr.Create.{create_dry_run}
use policy_server.Polr.Update.{update_dry_run}
use policy_server.Polr.Delete.{delete_dry_run}
use policy_server.Polr.Listing.Collection.{delete_collection_dry_run}
use policy_server.Cpolr
use policy_server.Cpolr.Atomic.{cluster_dry_runs}

module _ (P : Platform) (S : Storage) (C : Contract S) where
  -- The storage has the same entries, and the broadcaster was not called.
  abbrev pub Quiet : State P S → State P S → Type 0
  Quiet s t = (C.entries t.store ≡ C.entries s.store) × (t.calls ≡ s.calls)

  collection_dry_run :
      (validate : ReportOf P → Option Error) (options : WriteOptions)
      (list_options : Option (ListOptions P)) (s : State P S)
      → C.Ready s.store
      → is_dry_run options ≡ true
      → Quiet s (Cpolr.delete_collection P S validate options list_options s).1
  unfolding Cpolr.delete_collection Cpolr.delete_collection_by Cpolr.list Cpolr.list_cpolr ◌>>=◌
  collection_dry_run validate options list_options s ready dry =
      let (vs, e, _, same) = C.list_lem (Cpolr.key_for_list P.group_version) 0 s.store ready in
      rw dry (rw e (ground (arith, same)))

  module _ (accept : ObjectOf P → Option Error) (info : UpdatedObjectInfo P S)
      (agree : Option (ObjectOf P) → ReportOf P → Option Error)
      (release : ReportOf P → Option Error) (namespace name : Text) (obj : ObjectOf P)
      (list_options : Option (ListOptions P)) (options : WriteOptions) (s : State P S)
      (ready : C.Ready s.store) (dry : is_dry_run options ≡ true) where
    -- Over a ready storage, dry runs of `Create`, of `Update` without `forceAllowCreate` and of
    -- `Delete` change nothing at all, and a dry run of `DeleteCollection` leaves the entries and
    -- tells no watcher: for namespaced and for cluster reports.
    pub dry_runs :
        (((create P S accept namespace obj options s).1 ≡ s)
          × ((update P S info agree namespace name false options s).1 ≡ s)
          × ((delete P S release namespace options name s).1 ≡ s)
          × Quiet s (delete_collection P S release namespace options list_options s).1)
        × (((Cpolr.create P S accept obj options s).1 ≡ s)
            × ((Cpolr.update P S info agree name false options s).1 ≡ s)
            × ((Cpolr.delete P S release options name s).1 ≡ s)
            × Quiet s (Cpolr.delete_collection P S release options list_options s).1)
    dry_runs =
        let (made, changed, removed) =
          cluster_dry_runs P S C accept info agree release name obj options s ready dry in
        (
          (
            create_dry_run P S C accept namespace options obj s dry,
            update_dry_run P S C info agree namespace name options s ready dry,
            delete_dry_run P S C release namespace name options s ready dry,
            delete_collection_dry_run P S C release namespace options list_options s ready dry,
          ),
          (made, changed, removed, collection_dry_run release options list_options s ready dry),
        )
