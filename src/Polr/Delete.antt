-- ===== src/Polr/Delete.antt =====
-- `Delete` of pkg/api/polr.go over a storage that is a finite map.
use policy_server.Prelude.{◌≡◌, refl, ◌∙◌, true, false, Option, none, some, [], ◌∷◌, ◌++◌, arith}
use policy_server.Prelude.Texts.{Text, codes, text_eq, text_eq_refl}
use policy_server.Result.{Error, ok, err, not_found, Failed, or_fail, pure, ◌>>=◌, ◌>>◌}
use policy_server.Result.Steps.{
  Still, Atomic, Atomic-bind, Atomic-end, Atomic-or_fail, Total-bind, Total-pure, still_rules,
  atomic_rules,
}
use policy_server.Strconv.{ℤ, parse_int}
use policy_server.Storage.{Storage}
use policy_server.Storage.Contract.{Contract}
use policy_server.Storage.GoMap.{lookup}
use policy_server.Report.{Platform, report, unstructured}
use policy_server.Handler.{
  WriteOptions, is_dry_run, deleted, ReportOf, action, State, stored, broadcast, broadcast-Total,
  decode, Untouched, Untouched-refl, raise_if, raise_if-Still,
}
use policy_server.Polr.{key, delete_polr, polr_to_obj, delete_report, delete, cannot_delete, get}
use policy_server.Polr.Reads.{held, get-missing, get_polr-held, get_polr-missing, get_polr-state}

module _ (P : Platform) (S : Storage) (C : Contract S) where
  delete_call-Atomic :
      (k : Text) (rev : ℤ) (s : State P S)
      → C.Ready s.store
      → Atomic (Untouched P S) (stored P S (S.delete k rev)) s
  delete_call-Atomic k rev s ready = record { on_failure = go (lookup k (C.entries s.store)) refl }
    where
      go :
          (x : Option Text)
          → lookup k (C.entries s.store) ≡ x
          → Failed (S.delete k rev s.store).0
          → Untouched P S s (stored P S (S.delete k rev) s).1
      go none e = λ _. rw (C.delete_missing k rev s.store ready e) (refl, refl)
      go (some old) e = rw (C.delete_found k old rev s.store ready e).0 (λ f. elim f [ ])

  delete_polr-Atomic :
      (r : ReportOf P) (s : State P S)
      → C.Ready s.store
      → Atomic (Untouched P S) (delete_polr P S r) s
  unfolding delete_polr
  delete_polr-Atomic r s ready =
      Atomic-bind (Untouched P S) (Untouched-refl P S) _ _ s (search still_rules)
        λ rev. delete_call-Atomic (key P.group_version r.name r.namespace) rev s ready

  module _ (validate : ReportOf P → Option Error) (namespace name : Text)
      (options : WriteOptions) where
    removal-Atomic :
        (r : ReportOf P) (s : State P S)
        → C.Ready s.store
        → Atomic
            (Untouched P S)
            (or_fail (cannot_delete P S) (delete_polr P S r)
              >> (broadcast P S deleted (report r) >> pure r))
            s
    removal-Atomic r s ready =
        Atomic-end (Untouched P S) _ _ s
          (Atomic-or_fail (Untouched P S) (cannot_delete P S) (delete_polr P S r) s
            (delete_polr-Atomic r s ready))
          λ _. search (Total-bind, broadcast-Total, Total-pure)

    pub delete_report-Atomic :
        (s : State P S)
        → C.Ready s.store
        → Atomic (Untouched P S) (delete_report P S validate namespace options name) s
    unfolding delete_report
    delete_report-Atomic s ready =
        search
          (atomic_rules, Untouched-refl, get_polr-state P S C, raise_if-Still P S, removal-Atomic)
          depth 8

    -- The step of `Delete` that removes a stored report and tells the watchers.
    pub delete_report-held :
        (d : Text) (r : ReportOf P) (rev : ℤ) (s : State P S)
        → C.Ready s.store
        → held P S C name namespace s ≡ some d
        → decode P d ≡ ok r
        → r.name ≡ name
        → r.namespace ≡ namespace
        → validate r ≡ none
        → is_dry_run options ≡ false
        → parse_int r.resource_version ≡ (rev, none)
        → delete_report P S validate namespace options name s ≡ (
          ok r,
          record s {
            store = (S.delete (key P.group_version name namespace) rev s.store).1;
            calls = s.calls ++ (action deleted (report r) ∷ []);
          },
        )
    unfolding delete_report delete_polr raise_if ◌>>=◌
    delete_report-held d r rev s ready h dec named placed valid wet rv =
        let (done, _) = C.delete_found (key P.group_version name namespace) d rev s.store ready h in
        rw (get_polr-held P S C name namespace d s ready h)
          (rw dec (rw valid (rw wet (rw rv (rw (named, placed) (ground arith))))))

    -- Over a ready storage, `Delete` without a dry run of a stored report that decodes to the
    -- asked name and namespace, passes validation, has a resource version that parses and can be
    -- converted, returns its conversion: `Get` does not find it any more, the other keys keep
    -- their bytes, and one Deleted event carries it.
    pub delete_then_get :
        (d bytes : Text) (r : ReportOf P) (u : P.Unstructured) (rev : ℤ) (s : State P S)
        → let t = (delete P S validate namespace options name s).1 in
          C.Ready s.store
          → held P S C name namespace s ≡ some d
          → decode P d ≡ ok r
          → r.name ≡ name
          → r.namespace ≡ namespace
          → validate r ≡ none
          → is_dry_run options ≡ false
          → parse_int r.resource_version ≡ (rev, none)
          → P.marshal r ≡ ok bytes
          → P.to_unstructured bytes ≡ ok u
          → ((delete P S validate namespace options name s).0 ≡ ok (unstructured u))
            × (t.calls ≡ s.calls ++ (action deleted (report r) ∷ []))
            × (get P S namespace name t ≡ (err (not_found (codes "policyreports") name), t))
            × ((j : Text)
                → text_eq (key P.group_version name namespace) j ≡ false
                → lookup j (C.entries t.store) ≡ lookup j (C.entries s.store))
    unfolding delete polr_to_obj ◌>>=◌
    delete_then_get d bytes r u rev s ready h dec named placed valid wet rv m conv =
        let k = key P.group_version name namespace in
        let (done, kept) = C.delete_found k d rev s.store ready h in
        rw (delete_report-held d r rev s ready h dec named placed valid wet rv) (
          rw m (
            rw conv (
              refl,
              refl,
              get-missing P S C namespace name _ (C.delete-Ready k rev s.store ready)
                  (kept k ∙ rw (text_eq_refl k) refl),
              λ j other. kept j ∙ rw other refl,
            )))

    -- Over a ready storage, if `Delete` without a dry run meets a stored report that decodes to
    -- the asked name and namespace, passes validation and has a resource version that parses, but
    -- cannot be converted, it returns that error, though the report is gone and a Deleted event
    -- was sent.
    pub delete_unconverted :
        (d bytes : Text) (r : ReportOf P) (e : Error) (rev : ℤ) (s : State P S)
        → let t = (delete P S validate namespace options name s).1 in
          C.Ready s.store
          → held P S C name namespace s ≡ some d
          → decode P d ≡ ok r
          → r.name ≡ name
          → r.namespace ≡ namespace
          → validate r ≡ none
          → is_dry_run options ≡ false
          → parse_int r.resource_version ≡ (rev, none)
          → P.marshal r ≡ ok bytes
          → P.to_unstructured bytes ≡ err e
          → ((delete P S validate namespace options name s).0 ≡ err e)
            × (t.calls ≡ s.calls ++ (action deleted (report r) ∷ []))
            × (held P S C name namespace t ≡ none)
    unfolding delete polr_to_obj ◌>>=◌
    delete_unconverted d bytes r e rev s ready h dec named placed valid wet rv m conv =
        let k = key P.group_version name namespace in
        let (done, kept) = C.delete_found k d rev s.store ready h in
        rw (delete_report-held d r rev s ready h dec named placed valid wet rv)
          (rw m (rw conv (refl, refl, kept k ∙ rw (text_eq_refl k) refl)))

    -- `Delete` of a report that is not stored is a NotFound of its name, and changes nothing.
    pub delete_missing :
        (s : State P S)
        → C.Ready s.store
        → held P S C name namespace s ≡ none
        → delete P S validate namespace options name s
          ≡ (err (not_found (codes "policyreports") name), s)
    unfolding delete delete_report ◌>>=◌
    delete_missing s ready h = rw (get_polr-missing P S C name namespace s ready h) refl

    polr_to_obj-Still : (r : ReportOf P) (s : State P S) → Still (polr_to_obj P S r) s
    unfolding polr_to_obj
    polr_to_obj-Still r s = search still_rules

    delete-Still :
        (s : State P S)
        → C.Ready s.store
        → is_dry_run options ≡ true
        → Still (delete P S validate namespace options name) s
    unfolding delete delete_report
    delete-Still s ready dry =
        rw dry (
          search (still_rules, get_polr-state P S C, raise_if-Still P S, polr_to_obj-Still) depth 9)

    -- Over a ready storage, a dry run of `Delete` changes nothing at all.
    pub delete_dry_run :
        (s : State P S)
        → C.Ready s.store
        → is_dry_run options ≡ true
        → (delete P S validate namespace options name s).1 ≡ s
    delete_dry_run s ready dry = (delete-Still s ready dry).same
