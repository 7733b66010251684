-- ===== src/Polr/Create.antt =====
-- `Create` of pkg/api/polr.go over a storage that is a finite map.
use policy_server.Prelude.{
  ◌≡◌, refl, ◌∙◌, inl, inr, true, false, Option, none, some, [], ◌∷◌, ◌++◌, arith, if◌then◌else◌,
}
use policy_server.Prelude.Texts.{Text, text_eq, text_eq_refl}
use policy_server.Result.{Error, Result, ok, err, panicked, Failed, pure, ◌>>=◌}
use policy_server.Strconv.{pos, sprint}
use policy_server.Storage.{Storage}
use policy_server.Storage.Contract.{Contract}
use policy_server.Storage.GoMap.{lookup}
use policy_server.Report.{Platform, report}
use policy_server.Handler.{
  decode, Untouched, Untouched-refl, Accepts, check_validation-Accepts, check_validation-Still,
  as_report-Still, WriteOptions, is_dry_run, added, ReportOf, ObjectOf, action, State,
  check_validation, as_report,
}
use policy_server.Result.Steps.{Atomic, atomic_rules}
use policy_server.Polr.{
  key, create_polr, create_stored, create, default_namespace, cannot_create, get,
}
use policy_server.Polr.Reads.{held, held-cases, get-held}

module _ (P : Platform) (S : Storage) (C : Contract S) where
  -- The report with the version, the UID and the time that `createPolr` gives it.
  abbrev pub stamped : ReportOf P → P.World → ReportOf P
  stamped r w = record r {
    resource_version = sprint (pos 1);
    uid = (P.new_uuid w).0;
    creation_timestamp = (P.now (P.new_uuid w).1).0;
  }

  abbrev pub after_stamp : P.World → P.World
  after_stamp w = (P.now (P.new_uuid w).1).1

  -- The storage call of `createPolr`.
  abbrev pub inserted : ReportOf P → Text → State P S → Result (Unit {0}) × S.State
  inserted r d s = S.create (key P.group_version r.name r.namespace) d s.store

  pub create_stored-new :
      (r : ReportOf P) (d : Text) (s : State P S)
      → C.Ready s.store
      → P.marshal (stamped r s.world) ≡ ok d
      → held P S C r.name r.namespace s ≡ none
      → create_stored P S r s ≡ (
        ok (report (stamped r s.world)),
        record {
          store = (inserted r d s).1;
          calls = s.calls ++ (action added (report (stamped r s.world)) ∷ []);
          world = after_stamp s.world;
        },
      )
  unfolding create_stored create_polr ◌>>=◌
  create_stored-new r d s ready m h =
      let (e, _) = C.create_new (key P.group_version r.name r.namespace) d s.store ready h in
      rw m (ground arith)

  pub create_stored-present :
      (r : ReportOf P) (d old : Text) (s : State P S)
      → C.Ready s.store
      → P.marshal (stamped r s.world) ≡ ok d
      → held P S C r.name r.namespace s ≡ some old
      → create_stored P S r s ≡ (
        err (cannot_create P S (C.present (key P.group_version r.name r.namespace))),
        record s { world = after_stamp s.world },
      )
  unfolding create_stored create_polr ◌>>=◌
  create_stored-present r d old s ready m h =
      let e = C.create_present (key P.group_version r.name r.namespace) d old s.store ready h in
      rw m (rw e refl)

  create_stored-Atomic :
      (r : ReportOf P) (s : State P S)
      → C.Ready s.store
      → Atomic (Untouched P S) (create_stored P S r) s
  create_stored-Atomic r s ready = record { on_failure = go (P.marshal (stamped r s.world)) refl }
    where
      unstored :
          (m : Result Text)
          → P.marshal (stamped r s.world) ≡ m
          → Failed m
          → Untouched P S s (create_stored P S r s).1
      unstored (ok d) e f = elim f [ ]
      unstored (err x) e f = unfold create_stored create_polr ◌>>=◌ in rw e (refl, refl)
      unstored panicked e f = unfold create_stored create_polr ◌>>=◌ in rw e (refl, refl)

      go :
          (m : Result Text)
          → P.marshal (stamped r s.world) ≡ m
          → Failed (create_stored P S r s).0
          → Untouched P S s (create_stored P S r s).1
      go (ok d) e = elim (held-cases P S C r.name r.namespace s) [
        | inl h ↦ rw (create_stored-new r d s ready e h) (λ f. elim f [ ])
        | inr (old, h) ↦ rw (create_stored-present r d old s ready e h) (λ f. (refl, refl))
      ]
      go (err x) e = λ f. unstored (err x) e tt
      go panicked e = λ f. unstored panicked e tt

  module _ (validate : ObjectOf P → Option Error) (namespace : Text) (options : WriteOptions) where
    pub create-accepted :
        (r : ReportOf P) (s : State P S)
        → Accepts P S (validate (report r)) options
        → create P S validate namespace (report r) options s
          ≡ (if is_dry_run options
                then pure (report (default_namespace P S namespace r))
                else create_stored P S (default_namespace P S namespace r))
              s
    unfolding create as_report ◌>>=◌
    create-accepted r s h = rw (check_validation-Accepts P S (validate (report r)) options s h) refl

    -- Over a ready storage, `Create` without a dry run of a report that passes validation, whose
    -- key is free and whose JSON encodes and decodes, stores it under its name and its own or the
    -- request's namespace, with resource version 1, a fresh UID and the current time; it returns
    -- that report, one Added event carries it, and `Get` then returns what its stored bytes decode
    -- to. Other keys keep their bytes.
    pub create_then_get :
        (r : ReportOf P) (d : Text) (back : ReportOf P) (s : State P S)
        → let r0 = default_namespace P S namespace r in
          let r1 = stamped r0 s.world in
          let t = (create P S validate namespace (report r) options s).1 in
          C.Ready s.store
          → Accepts P S (validate (report r)) options
          → is_dry_run options ≡ false
          → held P S C r0.name r0.namespace s ≡ none
          → P.marshal r1 ≡ ok d
          → decode P d ≡ ok back
          → ((create P S validate namespace (report r) options s).0 ≡ ok (report r1))
            × (t.calls ≡ s.calls ++ (action added (report r1) ∷ []))
            × (get P S r0.namespace r0.name t ≡ (ok back, t))
            × ((j : Text)
                → text_eq (key P.group_version r0.name r0.namespace) j ≡ false
                → lookup j (C.entries t.store) ≡ lookup j (C.entries s.store))
    create_then_get r d back s ready accepted wet free m back_ok =
        let r0 : ReportOf P = default_namespace P S namespace r in
        let k = key P.group_version r0.name r0.namespace in
        let (done, kept) = C.create_new k d s.store ready free in
        rw (create-accepted r s accepted, wet, create_stored-new r0 d s ready m free)
          (
            refl,
            refl,
            get-held P S C r0.namespace r0.name d back _ (C.create-Ready k d s.store ready)
                (kept k ∙ rw (text_eq_refl k) refl) back_ok,
            λ j other. kept j ∙ rw other refl,
          )

    create_Atomic :
        (obj : ObjectOf P) (s : State P S)
        → C.Ready s.store
        → Atomic (Untouched P S) (create P S validate namespace obj options) s
    unfolding create
    create_Atomic obj s ready = search (
      atomic_rules, Untouched-refl, check_validation-Still, as_report-Still, create_stored-Atomic,
    )

    -- Over a ready storage, `Create` that returns an error, or panics, has stored nothing and told
    -- no watcher.
    pub create-Failed :
        (obj : ObjectOf P) (s : State P S)
        → C.Ready s.store
        → Failed (create P S validate namespace obj options s).0
        → Untouched P S s (create P S validate namespace obj options s).1
    create-Failed obj s ready = (create_Atomic obj s ready).on_failure

    -- A dry run of `Create` changes nothing at all, whatever it returns.
    pub create_dry_run :
        (obj : ObjectOf P) (s : State P S)
        → is_dry_run options ≡ true
        → (create P S validate namespace obj options s).1 ≡ s
    unfolding create as_report check_validation ◌>>=◌
    create_dry_run obj s dry = ground arith

    -- Over a ready storage, `Create` without a dry run of a report that passes validation and
    -- encodes, and whose key is taken, is refused with a BadRequest; the stored bytes and the
    -- broadcaster are as before.
    pub create_taken :
        (r : ReportOf P) (d old : Text) (s : State P S)
        → let r0 = default_namespace P S namespace r in
          C.Ready s.store
          → Accepts P S (validate (report r)) options
          → is_dry_run options ≡ false
          → held P S C r0.name r0.namespace s ≡ some old
          → P.marshal (stamped r0 s.world) ≡ ok d
          → ((create P S validate namespace (report r) options s).0
              ≡ err (cannot_create P S (C.present (key P.group_version r0.name r0.namespace))))
            × Untouched P S s (create P S validate namespace (report r) options s).1
    create_taken r d old s ready accepted wet taken m =
        let r0 : ReportOf P = default_namespace P S namespace r in
        rw (create-accepted r s accepted, wet, create_stored-present r0 d old s ready m taken)
          (refl, (refl, refl))
