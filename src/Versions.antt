-- ===== src/Versions.antt =====
-- pkg/api/v1alpha1, pkg/api/v1alpha2 and pkg/api/v1beta1 next to pkg/api: where their `Delete` differs.
use policy_server.Prelude.{Option}
use policy_server.Prelude.Texts.{Text}
use policy_server.Result.{Error, Failed, pure, ◌>>=◌}
use policy_server.Result.Steps.{Atomic, Atomic-end, Total-pure}
use policy_server.Storage.{Storage}
use policy_server.Storage.Contract.{Contract}
use policy_server.Report.{Platform, report}
use policy_server.Handler.{WriteOptions, ReportOf, ObjectOf, State, Handler, Untouched}
use policy_server.Polr.{delete_report}
use policy_server.Polr.Delete.{delete_report-Atomic}
use policy_server.Cpolr.Atomic.{delete_report-Atomic as delete_cluster_report-Atomic}
use policy_server.V1alpha1.Cpolr as Alpha1Cpolr
use policy_server.V1alpha2.Cpolr as Alpha2Cpolr
use policy_server.V1beta1.Cpolr as Beta1Cpolr
use policy_server.V1alpha1.Polr as V1alpha1
use policy_server.V1alpha2.Polr as V1alpha2
use policy_server.V1beta1.Polr as V1beta1

module _ (P : Platform) (S : Storage) (validate : ReportOf P → Option Error) (namespace name : Text)
    (options : WriteOptions) where
  -- `Delete` of the versions: the deleted report itself.
  plain_delete : Handler P S (ObjectOf P)
  plain_delete = delete_report P S validate namespace options name >>= λ r. pure (report r)

  plain_delete-Atomic :
      (C : Contract S) (s : State P S) → C.Ready s.store → Atomic (Untouched P S) plain_delete s
  unfolding plain_delete
  plain_delete-Atomic C s ready =
      Atomic-end (Untouched P S) _ _ s
        (delete_report-Atomic P S C validate namespace name options s ready)
        λ r. Total-pure (report r)

  -- In each of the three API versions, over a ready storage, `Delete` that returns an error, or
  -- panics, has deleted nothing and told no watcher.
  pub versions_delete-Failed :
      (C : Contract S) (s : State P S)
      → C.Ready s.store
      → (Failed (V1alpha1.delete P S validate namespace options name s).0
          → Untouched P S s (V1alpha1.delete P S validate namespace options name s).1)
        × (Failed (V1alpha2.delete P S validate namespace options name s).0
            → Untouched P S s (V1alpha2.delete P S validate namespace options name s).1)
        × (Failed (V1beta1.delete P S validate namespace options name s).0
            → Untouched P S s (V1beta1.delete P S validate namespace options name s).1)
  unfolding V1alpha1.delete V1alpha2.delete V1beta1.delete plain_delete
  versions_delete-Failed C s ready = let h = (plain_delete-Atomic C s ready).on_failure in (h, h, h)

module _ (P : Platform) (S : Storage) (validate : ReportOf P → Option Error) (name : Text)
    (options : WriteOptions) where
  -- In each of the three API versions, over a ready storage, `Delete` of a cluster report that
  -- returns an error, or panics, has deleted nothing and told no watcher.
  pub versions_cluster_delete-Failed :
      (C : Contract S) (s : State P S)
      → C.Ready s.store
      → (Failed (Alpha1Cpolr.delete P S validate options name s).0
          → Untouched P S s (Alpha1Cpolr.delete P S validate options name s).1)
        × (Failed (Alpha2Cpolr.delete P S validate options name s).0
            → Untouched P S s (Alpha2Cpolr.delete P S validate options name s).1)
        × (Failed (Beta1Cpolr.delete P S validate options name s).0
            → Untouched P S s (Beta1Cpolr.delete P S validate options name s).1)
  unfolding Alpha1Cpolr.delete Alpha2Cpolr.delete Beta1Cpolr.delete
  versions_cluster_delete-Failed C s ready =
      let h =
        (Atomic-end (Untouched P S) _ (λ r. pure (report r)) s
          (delete_cluster_report-Atomic P S C validate options name s ready)
          λ r. Total-pure (report r)).on_failure in
      (h, h, h)

-- An action that fails has stored nothing and told no watcher.
abbrev pub Undone : (P : Platform) (S : Storage) → State P S → Handler P S (ObjectOf P) → Type 0
Undone P S s m = Failed (m s).0 → Untouched P S s (m s).1

module _ (P : Platform) (S : Storage) (C : Contract S) where
  -- In each of the three API versions, over a ready storage, `Delete` of a namespaced or of a
  -- cluster report that returns an error, or panics, has deleted nothing and told no watcher.
  pub version_deletes-Failed :
      (validate : ReportOf P → Option Error) (namespace name : Text) (options : WriteOptions)
      (s : State P S)
      → C.Ready s.store
      → (Undone P S s (V1alpha1.delete P S validate namespace options name)
          × Undone P S s (V1alpha2.delete P S validate namespace options name)
          × Undone P S s (V1beta1.delete P S validate namespace options name))
        × (Undone P S s (Alpha1Cpolr.delete P S validate options name)
            × Undone P S s (Alpha2Cpolr.delete P S validate options name)
            × Undone P S s (Beta1Cpolr.delete P S validate options name))
  version_deletes-Failed validate namespace name options s ready = (
    versions_delete-Failed P S validate namespace name options C s ready,
    versions_cluster_delete-Failed P S validate name options C s ready,
  )
