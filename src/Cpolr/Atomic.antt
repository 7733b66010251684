-- ===== src/Cpolr/Atomic.antt =====
-- Failed requests and dry runs of pkg/api/cpolr.go over a storage that is a finite map.
use policy_server.Prelude.{◌≡◌, refl, inl, inr, true, false, Option, none, some}
use policy_server.Prelude.Texts.{Text}
use policy_server.Result.{Error, Result, ok, err, panicked, Failed, or_fail, pure, ◌>>=◌, ◌>>◌}
use policy_server.Result.Steps.{
  Still, Atomic, Atomic-bind, Atomic-end, Atomic-or_fail, Total-bind, Total-pure, still_rules,
  atomic_rules,
}
use policy_server.Strconv.{ℤ}
use policy_server.Storage.{Storage}
use policy_server.Storage.Contract.{Contract}
use policy_server.Storage.GoMap.{lookup}
use policy_server.Report.{Platform, report}
use policy_server.Handler.{
  WriteOptions, is_dry_run, deleted, ReportOf, ObjectOf, State, stored, broadcast, broadcast-Total,
  Untouched, Untouched-refl, check_validation-Still, as_report-Still, raise_if-Still,
  UpdatedObjectInfo,
}
use policy_server.Cpolr.{
  key, create_cpolr, create_stored, create, update_checked, update, delete_polr, delete_report,
  delete, cpolr_to_obj, cannot_delete,
}
use policy_server.Cpolr.Reads.{held-cases, get_cpolr-state}
use policy_server.Cpolr.Writes.{create_stored-held, create_stored-missing}
use policy_server.Polr.Create.{stamped}

module _ (P : Platform) (S : Storage) (C : Contract S) where
  create_stored-Atomic :
      (r : ReportOf P) (s : State P S)
      → C.Ready s.store
      → Atomic (Untouched P S) (create_stored P S r) s
  create_stored-Atomic r s ready = record {
    on_failure = go (P.marshal (stamped P S C r s.world)) refl;
  }
    where
      unstored :
          (m : Result Text)
          → P.marshal (stamped P S C r s.world) ≡ m
          → Failed m
          → Untouched P S s (create_stored P S r s).1
      unstored (ok d) e f = elim f [ ]
      unstored (err x) e f = unfold create_stored create_cpolr ◌>>=◌ in rw e (refl, refl)
      unstored panicked e f = unfold create_stored create_cpolr ◌>>=◌ in rw e (refl, refl)

      go :
          (m : Result Text)
          → P.marshal (stamped P S C r s.world) ≡ m
          → Failed (create_stored P S r s).0
          → Untouched P S s (create_stored P S r s).1
      go (ok d) e = elim (held-cases P S C r.name s) [
        | inl h ↦ rw (create_stored-missing P S C r d s ready e h) (λ f. (refl, refl))
        | inr (old, h) ↦ rw (create_stored-held P S C r d old s ready e h) (λ f. elim f [ ])
      ]
      go (err x) e = λ f. unstored (err x) e tt
      go panicked e = λ f. unstored panicked e tt

  delete_call-Atomic :
      (k : Text) (rev : ℤ) (s : State P S)
      → C.Ready s.store
      → Atomic (Untouched P S) (stored P S (S.delete k rev)) s
  delete_call-Atomic k rev s ready = record { on_failure = go (lookup k (C.entries s.store)) refl }
    where
      go :
          (x : Option Text)
          → lookup k (C.entries s.store) ≡ x
          → Failed (S.delete k rev s.store).0
          → Untouched P S s (stored P S (S.delete k rev) s).1
      go none e = λ _. rw (C.delete_missing k rev s.store ready e) (refl, refl)
      go (some old) e = rw (C.delete_found k old rev s.store ready e).0 (λ f. elim f [ ])

  delete_polr-Atomic :
      (r : ReportOf P) (s : State P S)
      → C.Ready s.store
      → Atomic (Untouched P S) (delete_polr P S r) s
  unfolding delete_polr
  delete_polr-Atomic r s ready =
      Atomic-bind (Untouched P S) (Untouched-refl P S) _ _ s (search still_rules)
        λ rev. delete_call-Atomic (key P.group_version r.name) rev s ready

  removal-Atomic :
      (r : ReportOf P) (s : State P S)
      → C.Ready s.store
      → Atomic
          (Untouched P S)
          (or_fail (cannot_delete P S) (delete_polr P S r)
            >> (broadcast P S deleted (report r) >> pure r))
          s
  removal-Atomic r s ready =
      Atomic-end (Untouched P S) _ _ s
        (Atomic-or_fail (Untouched P S) (cannot_delete P S) (delete_polr P S r) s
          (delete_polr-Atomic r s ready))
        λ _. search (Total-bind, broadcast-Total, Total-pure)

  pub delete_report-Atomic :
      (validate : ReportOf P → Option Error) (options : WriteOptions) (name : Text) (s : State P S)
      → C.Ready s.store
      → Atomic (Untouched P S) (delete_report P S validate options name) s
  unfolding delete_report
  delete_report-Atomic validate options name s ready =
      search
        (atomic_rules, Untouched-refl, get_cpolr-state P S C, raise_if-Still P S, removal-Atomic)
        depth 8

  create_Atomic :
      (validate : ObjectOf P → Option Error) (options : WriteOptions) (obj : ObjectOf P)
      (s : State P S)
      → C.Ready s.store
      → Atomic (Untouched P S) (create P S validate obj options) s
  unfolding create
  create_Atomic validate options obj s ready =
      search (
        atomic_rules, Untouched-refl, check_validation-Still, as_report-Still, create_stored-Atomic,
      )

  update_checked-Atomic :
      (updated : UpdatedObjectInfo P S) (validate : Option (ObjectOf P) → ReportOf P → Option Error)
      (name : Text) (options : WriteOptions) (s : State P S)
      → C.Ready s.store
      → Atomic (Untouched P S) (update_checked P S updated validate name options) s
  unfolding update_checked
  update_checked-Atomic updated validate name options s ready =
      search
        (
          atomic_rules,
          Untouched-refl,
          get_cpolr-state P S C,
          check_validation-Still P S,
          as_report-Still P S,
          raise_if-Still P S,
          create_stored-Atomic,
        )
        depth 8

  -- Over a ready storage, `Create` of a cluster report, and `Update` without `forceAllowCreate`,
  -- that return an error, or panic, have stored nothing and told no watcher.
  pub cluster_writes-Failed :
      (accept : ObjectOf P → Option Error) (updated : UpdatedObjectInfo P S)
      (validate : Option (ObjectOf P) → ReportOf P → Option Error) (name : Text) (obj : ObjectOf P)
      (options : WriteOptions) (s : State P S)
      → C.Ready s.store
      → (Failed (create P S accept obj options s).0
          → Untouched P S s (create P S accept obj options s).1)
        × (Failed (update P S updated validate name false options s).0
            → Untouched P S s (update P S updated validate name false options s).1)
  unfolding update
  cluster_writes-Failed accept updated validate name obj options s ready = (
    (create_Atomic accept options obj s ready).on_failure,
    (update_checked-Atomic updated validate name options s ready).on_failure,
  )

  cpolr_to_obj-Still : (r : ReportOf P) (s : State P S) → Still (cpolr_to_obj P S r) s
  unfolding cpolr_to_obj
  cpolr_to_obj-Still r s = search still_rules

  create-Still :
      (validate : ObjectOf P → Option Error) (options : WriteOptions) (obj : ObjectOf P)
      (s : State P S)
      → is_dry_run options ≡ true
      → Still (create P S validate obj options) s
  unfolding create
  create-Still validate options obj s dry =
      rw dry (search (still_rules, check_validation-Still P S, as_report-Still P S) depth 8)

  update-Still :
      (updated : UpdatedObjectInfo P S) (validate : Option (ObjectOf P) → ReportOf P → Option Error)
      (name : Text) (options : WriteOptions) (s : State P S)
      → C.Ready s.store
      → is_dry_run options ≡ true
      → Still (update_checked P S updated validate name options) s
  unfolding update_checked
  update-Still updated validate name options s ready dry = rw dry (
      search
        (
          still_rules,
          get_cpolr-state P S C,
          check_validation-Still P S,
          as_report-Still P S,
          raise_if-Still P S,
        )
        depth 9)

  delete-Still :
      (validate : ReportOf P → Option Error) (options : WriteOptions) (name : Text) (s : State P S)
      → C.Ready s.store
      → is_dry_run options ≡ true
      → Still (delete P S validate options name) s
  unfolding delete delete_report
  delete-Still validate options name s ready dry =
      rw dry (
        search (still_rules, get_cpolr-state P S C, raise_if-Still P S, cpolr_to_obj-Still) depth 9)

  -- Over a ready storage, dry runs of `Create`, of `Update` without `forceAllowCreate` and of
  -- `Delete` of cluster reports change nothing at all.
  pub cluster_dry_runs :
      (accept : ObjectOf P → Option Error) (updated : UpdatedObjectInfo P S)
      (validate : Option (ObjectOf P) → ReportOf P → Option Error)
      (releases : ReportOf P → Option Error) (name : Text) (obj : ObjectOf P)
      (options : WriteOptions) (s : State P S)
      → C.Ready s.store
      → is_dry_run options ≡ true
      → ((create P S accept obj options s).1 ≡ s)
        × ((update P S updated validate name false options s).1 ≡ s)
        × ((delete P S releases options name s).1 ≡ s)
  unfolding update
  cluster_dry_runs accept updated validate releases name obj options s ready dry = (
    (create-Still accept options obj s dry).same,
    (update-Still updated validate name options s ready dry).same,
    (delete-Still releases options name s ready dry).same,
  )
