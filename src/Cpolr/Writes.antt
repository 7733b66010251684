-- ===== src/Cpolr/Writes.antt =====
-- `Create`, `Update` and `Delete` of pkg/api/cpolr.go over a storage that is a finite map.
use policy_server.Prelude.{
  ◌≡◌, refl, ◌∙◌, false, Option, none, some, [], ◌∷◌, ◌++◌, arith, if◌then◌else◌,
}
use policy_server.Prelude.Texts.{Text, codes, text_eq, text_eq_refl}
use policy_server.Result.{Error, ok, err, not_found, pure, ◌>>=◌}
use policy_server.Strconv.{ℤ, pos, parse_int}
use policy_server.Storage.{Storage}
use policy_server.Storage.Contract.{Contract}
use policy_server.Storage.GoMap.{lookup}
use policy_server.Report.{Platform, report, unstructured}
use policy_server.Handler.{
  WriteOptions, is_dry_run, added, deleted, ReportOf, ObjectOf, action, State, as_report, raise_if,
  decode, Untouched, Accepts, check_validation-Accepts, UpdatedObjectInfo,
}
use policy_server.Cpolr.{
  key, create_cpolr, create_stored, create, update_checked, update, delete_polr, delete_report,
  delete, cpolr_to_obj, cannot_create, get,
}
use policy_server.Cpolr.Reads.{held, get-held, get-missing, get_cpolr-held}
use policy_server.Polr.Create.{stamped, after_stamp}

module _ (P : Platform) (S : Storage) (C : Contract S) where
  pub create_stored-held :
      (r : ReportOf P) (d old : Text) (s : State P S)
      → C.Ready s.store
      → P.marshal (stamped P S C r s.world) ≡ ok d
      → held P S C r.name s ≡ some old
      → create_stored P S r s ≡ (
        ok (report (stamped P S C r s.world)),
        record {
          store = (S.update (key P.group_version r.name) (pos 1) d s.store).1;
          calls = s.calls ++ (action added (report (stamped P S C r s.world)) ∷ []);
          world = after_stamp P S C s.world;
        },
      )
  unfolding create_stored create_cpolr ◌>>=◌
  create_stored-held r d old s ready m h =
      let (e, _) = C.update_found (key P.group_version r.name) d old (pos 1) s.store ready h in
      rw m (ground arith)

  pub create_stored-missing :
      (r : ReportOf P) (d : Text) (s : State P S)
      → C.Ready s.store
      → P.marshal (stamped P S C r s.world) ≡ ok d
      → held P S C r.name s ≡ none
      → create_stored P S r s ≡ (
        err (cannot_create P S (C.missing (key P.group_version r.name))),
        record s { world = after_stamp P S C s.world },
      )
  unfolding create_stored create_cpolr ◌>>=◌
  create_stored-missing r d s ready m h =
      rw m (rw (C.update_missing (key P.group_version r.name) d (pos 1) s.store ready h) refl)

  module _ (validate : ObjectOf P → Option Error) (options : WriteOptions) where
    create-accepted :
        (r : ReportOf P) (s : State P S)
        → Accepts P S (validate (report r)) options
        → create P S validate (report r) options s
          ≡ (if is_dry_run options then pure (report r) else create_stored P S r) s
    unfolding create as_report ◌>>=◌
    create-accepted r s h = rw (check_validation-Accepts P S (validate (report r)) options s h) refl

    -- Over a ready storage, `Create` without a dry run of a cluster report that passes validation
    -- and encodes, and whose name is free, is refused: `createCpolr` calls the storage's `Update`.
    -- Nothing is stored and no watcher is told.
    pub create_new_refused :
        (r : ReportOf P) (d : Text) (s : State P S)
        → C.Ready s.store
        → Accepts P S (validate (report r)) options
        → is_dry_run options ≡ false
        → held P S C r.name s ≡ none
        → P.marshal (stamped P S C r s.world) ≡ ok d
        → ((create P S validate (report r) options s).0
            ≡ err (cannot_create P S (C.missing (key P.group_version r.name))))
          × Untouched P S s (create P S validate (report r) options s).1
    create_new_refused r d s ready accepted wet free m =
        rw (create-accepted r s accepted, wet, create_stored-missing r d s ready m free)
          (refl, (refl, refl))

    -- Over a ready storage, `Create` without a dry run of a cluster report that passes validation,
    -- whose JSON encodes and decodes, and whose name is taken overwrites the stored one, with
    -- resource version 1, a fresh UID and the current time; one Added event carries it, and `Get`
    -- then returns what the new bytes decode to.
    pub create_taken_overwrites :
        (r : ReportOf P) (d old : Text) (back : ReportOf P) (s : State P S)
        → let r1 = stamped P S C r s.world in
          let t = (create P S validate (report r) options s).1 in
          C.Ready s.store
          → Accepts P S (validate (report r)) options
          → is_dry_run options ≡ false
          → held P S C r.name s ≡ some old
          → P.marshal r1 ≡ ok d
          → decode P d ≡ ok back
          → ((create P S validate (report r) options s).0 ≡ ok (report r1))
            × (t.calls ≡ s.calls ++ (action added (report r1) ∷ []))
            × (get P S r.name t ≡ (ok back, t))
    create_taken_overwrites r d old back s ready accepted wet taken m back_ok =
        let k = key P.group_version r.name in
        let (done, kept) = C.update_found k d old (pos 1) s.store ready taken in
        rw (create-accepted r s accepted, wet, create_stored-held r d old s ready m taken)
          (
            refl,
            refl,
            get-held P S C r.name d back _ (C.update-Ready k d (pos 1) s.store ready)
                (kept k ∙ rw (text_eq_refl k) refl) back_ok,
          )

  module _ (updated : UpdatedObjectInfo P S)
      (validate : Option (ObjectOf P) → ReportOf P → Option Error) (name : Text)
      (options : WriteOptions) where
    update_checked-accepted :
        (d : Text) (old u : ReportOf P) (s : State P S)
        → C.Ready s.store
        → held P S C name s ≡ some d
        → decode P d ≡ ok old
        → updated (some old) ≡ (some (report u), none)
        → Accepts P S (validate (some (report u)) old) options
        → update_checked P S updated validate name options s
          ≡ (if is_dry_run options then pure (report u) else create_stored P S u) s
    unfolding update_checked as_report raise_if ◌>>=◌
    update_checked-accepted d old u s ready h dec up accepted =
        rw (get_cpolr-held P S C name d s ready h) (
          rw dec (
            rw
              (up, check_validation-Accepts P S (validate (some (report u)) old) options s accepted)
              refl))

    -- Over a ready storage, an accepted `Update` of a stored cluster report, neither forced nor a
    -- dry run, whose new form has a stored key and JSON that encodes and decodes, stores the new
    -- form with resource version 1, a fresh UID and the current time, whatever version, UID and
    -- creation time the stored one had; other keys keep their bytes.
    pub update_resets_version :
        (d d1 d2 : Text) (old u back : ReportOf P) (s : State P S)
        → let u1 = stamped P S C u s.world in
          let t = (update P S updated validate name false options s).1 in
          C.Ready s.store
          → held P S C name s ≡ some d
          → decode P d ≡ ok old
          → updated (some old) ≡ (some (report u), none)
          → Accepts P S (validate (some (report u)) old) options
          → is_dry_run options ≡ false
          → held P S C u.name s ≡ some d1
          → P.marshal u1 ≡ ok d2
          → decode P d2 ≡ ok back
          → ((update P S updated validate name false options s).0 ≡ ok (report u1))
            × (t.calls ≡ s.calls ++ (action added (report u1) ∷ []))
            × (get P S u.name t ≡ (ok back, t))
            × ((j : Text)
                → text_eq (key P.group_version u.name) j ≡ false
                → lookup j (C.entries t.store) ≡ lookup j (C.entries s.store))
    unfolding update
    update_resets_version d d1 d2 old u back s ready h dec up accepted wet h1 m back_ok =
        let k = key P.group_version u.name in
        let (done, kept) = C.update_found k d2 d1 (pos 1) s.store ready h1 in
        rw
          (
            update_checked-accepted d old u s ready h dec up accepted,
            wet,
            create_stored-held u d2 d1 s ready m h1,
          )
          (
            refl,
            refl,
            get-held P S C u.name d2 back _ (C.update-Ready k d2 (pos 1) s.store ready)
                (kept k ∙ rw (text_eq_refl k) refl) back_ok,
            λ j other. kept j ∙ rw other refl,
          )

  module _ (validate : ReportOf P → Option Error) (name : Text) (options : WriteOptions) where
    delete_report-held :
        (d : Text) (r : ReportOf P) (rev : ℤ) (s : State P S)
        → C.Ready s.store
        → held P S C name s ≡ some d
        → decode P d ≡ ok r
        → r.name ≡ name
        → validate r ≡ none
        → is_dry_run options ≡ false
        → parse_int r.resource_version ≡ (rev, none)
        → delete_report P S validate options name s ≡ (
          ok r,
          record s {
            store = (S.delete (key P.group_version name) rev s.store).1;
            calls = s.calls ++ (action deleted (report r) ∷ []);
          },
        )
    unfolding delete_report delete_polr raise_if ◌>>=◌
    delete_report-held d r rev s ready h dec named valid wet rv =
        let (done, _) = C.delete_found (key P.group_version name) d rev s.store ready h in
        rw (get_cpolr-held P S C name d s ready h)
          (rw dec (rw valid (rw wet (rw rv (rw named (ground arith))))))

    -- Over a ready storage, `Delete` without a dry run of a stored cluster report that decodes to
    -- the asked name, passes validation, has a resource version that parses and can be converted,
    -- returns its conversion: `Get` does not find it any more, and one Deleted event carries it.
    pub cluster_delete_then_get :
        (d bytes : Text) (r : ReportOf P) (u : P.Unstructured) (rev : ℤ) (s : State P S)
        → let t = (delete P S validate options name s).1 in
          C.Ready s.store
          → held P S C name s ≡ some d
          → decode P d ≡ ok r
          → r.name ≡ name
          → validate r ≡ none
          → is_dry_run options ≡ false
          → parse_int r.resource_version ≡ (rev, none)
          → P.marshal r ≡ ok bytes
          → P.to_unstructured bytes ≡ ok u
          → ((delete P S validate options name s).0 ≡ ok (unstructured u))
            × (t.calls ≡ s.calls ++ (action deleted (report r) ∷ []))
            × (get P S name t ≡ (err (not_found (codes "clusterpolicyreports") name), t))
    unfolding delete cpolr_to_obj ◌>>=◌
    cluster_delete_then_get d bytes r u rev s ready h dec named valid wet rv m conv =
        let k = key P.group_version name in
        let (done, kept) = C.delete_found k d rev s.store ready h in
        rw (delete_report-held d r rev s ready h dec named valid wet rv) (
          rw m (
            rw conv (
              refl,
              refl,
              get-missing P S C name _ (C.delete-Ready k rev s.store ready)
                  (kept k ∙ rw (text_eq_refl k) refl),
            )))
