-- ===== src/Polr/Frame.antt =====
-- The handlers of pkg/api/polr.go touch no other key than those of namespaced reports of their own API
-- version: cluster reports, which stand in the same storage, are left alone.
use policy_server.Prelude.{ℕ, ◌≡◌, ◌≢◌, refl, ap, Bool, true, false, Option, List, [], ◌∷◌, arith}
use policy_server.Prelude.Texts.{Text, codes, text_eq, text_eq_ne, append_cancel}
use policy_server.Result.{Error}
use policy_server.Result.Keeps.{
  Keeps, pure-Keeps, or_fail-Keeps, attempt-Keeps, if-Keeps, bind-Keeps, keeps_rules,
}
use policy_server.Handler.Frame.{
  Has, create_call-Has, update_call-Has, delete_call-Has, list_call-Has, broadcast-Has,
  fresh_uid-Has, current_time-Has, check_validation-Has, raise_if-Has, as_report-Has,
  must_report-Has,
}
use policy_server.Storage.{Storage}
use policy_server.Storage.Contract.{Contract}
use policy_server.Report.{Platform}
use policy_server.Handler.{
  WriteOptions, is_dry_run, ListOptions, ReportOf, ObjectOf, State, Handler, UpdatedObjectInfo,
}
use policy_server.Polr.{
  key, get_polr, list_polr, create_polr, next_version, update_polr, delete_polr, polr_to_obj, list,
  get, create_stored, create, update_forced, update_stored, update_checked, update, delete_report,
  delete, delete_loop, delete_collection_by, delete_collection,
}
use policy_server.Polr.Keys.{IsGroupVersion, key-ne-version}
use policy_server.Storage.GoMap.{lookup}
use policy_server.Polr.Reads.{get_polr-state}
use policy_server.Polr.Serve.{Reach, start, created, updated, deleted, cleared, listed, read}
use policy_server.Cpolr
use policy_server.Cpolr.Reads as ClusterReads

abbrev second_byte : Text → ℕ
second_byte (b ∷ c ∷ t) = c
second_byte _ = 0

module _ (P : Platform) (S : Storage) (C : Contract S) (k : Text)
    (other : (name namespace : Text) → text_eq (key P.group_version name namespace) k ≡ false)
    (x : Option Text) where
  get_polr-Has : (name namespace : Text) → Keeps (Has P S C k x) (get_polr P S name namespace)
  get_polr-Has name namespace = record {
    after = λ s i. rw ((get_polr-state P S C name namespace s i.ready).same) i;
  }

  create_polr-Has : (r : ReportOf P) → Keeps (Has P S C k x) (create_polr P S r)
  unfolding create_polr
  create_polr-Has r = bind-Keeps _ _ (fresh_uid-Has P S C k x) λ uid.
      bind-Keeps _ _ (current_time-Has P S C k x)
        λ now. search (keeps_rules, create_call-Has P S C k x, other)

  create-Has :
      (validate : ObjectOf P → Option Error) (namespace : Text) (obj : ObjectOf P)
      (options : WriteOptions)
      → Keeps (Has P S C k x) (create P S validate namespace obj options)
  unfolding create create_stored
  create-Has validate namespace obj options =
      search
        (
          keeps_rules,
          check_validation-Has P S C k x,
          as_report-Has P S C k x,
          create_polr-Has,
          broadcast-Has P S C k x,
        )
        depth 14

  next_version-Has :
      (r : ReportOf P) (force : Bool) → Keeps (Has P S C k x) (next_version P S r force)
  unfolding next_version
  next_version-Has r true = pure-Keeps _
  next_version-Has r false = search (keeps_rules, get_polr-Has)

  update_polr-Has :
      (r : ReportOf P) (force : Bool) → Keeps (Has P S C k x) (update_polr P S r force)
  unfolding update_polr
  update_polr-Has r force =
      search (keeps_rules, next_version-Has, update_call-Has P S C k x, other) depth 9

  update-Has :
      (info : UpdatedObjectInfo P S) (validate : Option (ObjectOf P) → ReportOf P → Option Error)
      (namespace name : Text) (force : Bool) (options : WriteOptions)
      → Keeps (Has P S C k x) (update P S info validate namespace name force options)
  unfolding update update_forced update_checked update_stored
  update-Has info validate namespace name true options =
      search
        (
          keeps_rules,
          attempt-Keeps,
          get_polr-Has,
          must_report-Has P S C k x,
          update_polr-Has,
          broadcast-Has P S C k x,
        )
        depth 12
  update-Has info validate namespace name false options =
      search
        (
          keeps_rules,
          get_polr-Has,
          raise_if-Has P S C k x,
          check_validation-Has P S C k x,
          as_report-Has P S C k x,
          update_polr-Has,
          broadcast-Has P S C k x,
        )
        depth 14

  delete-Has :
      (validate : ReportOf P → Option Error) (namespace : Text) (options : WriteOptions)
      (name : Text)
      → Keeps (Has P S C k x) (delete P S validate namespace options name)
  unfolding delete delete_report delete_polr polr_to_obj
  delete-Has validate namespace options name =
      search
        (
          keeps_rules,
          get_polr-Has,
          raise_if-Has P S C k x,
          delete_call-Has P S C k x,
          other,
          broadcast-Has P S C k x,
        )
        depth 12

  list-Has :
      (namespace : Text) (options : Option (ListOptions P))
      → Keeps (Has P S C k x) (list P S namespace options)
  unfolding list list_polr
  list-Has namespace options = search (keeps_rules, list_call-Has P S C k x) depth 9

  delete_loop-Has :
      (delete_one : Text → Handler P S (ObjectOf P)) (rs : List (ReportOf P))
      → ((name : Text) → Keeps (Has P S C k x) (delete_one name))
      → Keeps (Has P S C k x) (delete_loop P S delete_one rs)
  unfolding delete_loop
  delete_loop-Has delete_one [] h = pure-Keeps _
  delete_loop-Has delete_one (r ∷ rs) h =
      bind-Keeps _ _ (or_fail-Keeps _ _ (h r.name))
        λ obj. bind-Keeps _ _ (broadcast-Has P S C k x _ _) λ _. delete_loop-Has delete_one rs h

  delete_collection-Has :
      (validate : ReportOf P → Option Error) (namespace : Text) (options : WriteOptions)
      (list_options : Option (ListOptions P))
      → Keeps (Has P S C k x) (delete_collection P S validate namespace options list_options)
  unfolding delete_collection delete_collection_by
  delete_collection-Has validate namespace options list_options =
      bind-Keeps _ _ (or_fail-Keeps _ _ (list-Has namespace list_options)) λ found.
        if-Keeps (is_dry_run options) _ _ (pure-Keeps _) (
          bind-Keeps _ _ (delete_loop-Has _ found.items (delete-Has validate namespace options))
            λ _. pure-Keeps _)

  Reach-Has : {s t : State P S} → Has P S C k x s → Reach P S s t → Has P S C k x t
  unfolding get
  Reach-Has i start = i
  Reach-Has i (created validate namespace obj options placed r) =
      (create-Has validate namespace obj options).after _ (Reach-Has i r)
  Reach-Has i (updated info validate namespace name force options placed r) =
      (update-Has info validate namespace name force options).after _ (Reach-Has i r)
  Reach-Has i (deleted validate namespace name options r) =
      (delete-Has validate namespace options name).after _ (Reach-Has i r)
  Reach-Has i (cleared validate namespace options list_options r) =
      (delete_collection-Has validate namespace options list_options).after _ (Reach-Has i r)
  Reach-Has i (listed namespace options r) = (list-Has namespace options).after _ (Reach-Has i r)
  Reach-Has i (read namespace name r) =
      (or_fail-Keeps _ _ (get_polr-Has name namespace)).after _ (Reach-Has i r)

module _ (P : Platform) (S : Storage) (C : Contract S) where
  pub key-ne-cluster :
      (name namespace cluster : Text)
      → text_eq (key P.group_version name namespace) (Cpolr.key P.group_version cluster) ≡ false
  unfolding key Cpolr.key
  key-ne-cluster name namespace cluster = text_eq_ne _ _ λ e.
      let letters : 110 ≡ 99 =
        ap second_byte (append_cancel P.group_version _ _ (append_cancel (codes "/apis/") _ _ e)) in
      omega (arith, letters)

  -- Over a ready storage, any requests to namespaced reports, valid or not, whose objects have
  -- slash-free namespaces, leave the stored bytes of every cluster report as they are: the two
  -- kinds stand in one storage under different keys.
  pub cluster_reports_kept :
      (cluster : Text) (s t : State P S)
      → C.Ready s.store
      → Reach P S s t
      → ClusterReads.held P S C cluster t ≡ ClusterReads.held P S C cluster s
  cluster_reports_kept cluster s t ready reach =
      (Reach-Has P S C (Cpolr.key P.group_version cluster)
        (λ name namespace. key-ne-cluster name namespace cluster)
        (ClusterReads.held P S C cluster s) (record { ready = ready; has = refl }) reach).has

  -- Over a ready storage that report stores of two different API versions share, each version a
  -- slash-free group and a slash-free version, any requests to the handlers of pkg/api for one
  -- version, valid or not, whose objects have slash-free namespaces, leave the stored bytes of
  -- every report of the other version as they are.
  pub versions_apart :
      (gv name namespace : Text) (s t : State P S)
      → IsGroupVersion P.group_version
      → IsGroupVersion gv
      → P.group_version ≢ gv
      → C.Ready s.store
      → Reach P S s t
      → lookup (key gv name namespace) (C.entries t.store)
        ≡ lookup (key gv name namespace) (C.entries s.store)
  versions_apart gv name namespace s t v v' apart ready reach =
      (Reach-Has P S C (key gv name namespace)
        (λ name' namespace'.
          text_eq_ne _ _
            (key-ne-version P.group_version gv name' name namespace' namespace v v' apart))
        (lookup (key gv name namespace) (C.entries s.store)) (record { ready = ready; has = refl })
        reach).has
