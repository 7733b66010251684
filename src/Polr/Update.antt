-- ===== src/Polr/Update.antt =====
-- `Update` of pkg/api/polr.go over a storage that is a finite map.
pub mod Forced
use policy_server.Prelude.{
  ◌≡◌, refl, subst, ◌∙◌, Bool, true, false, Option, none, some, [], ◌∷◌, ◌++◌, arith, if◌then◌else◌,
}
use policy_server.Prelude.Texts.{Text, codes, text_eq, text_eq_refl}
use policy_server.Result.{Error, Result, ok, err, wrapped, Failed, pure, ◌>>=◌}
use policy_server.Result.Steps.{
  Still, Atomic, Atomic-bind, Atomic-end, Atomic-or_fail, Total-bind, Total-pure, still_rules,
  atomic_rules,
}
use policy_server.Strconv.{ℤ, sprint, parse_int, next_int64, IsInt64}
use policy_server.Strconv.RoundTrip.{parse_int-sprint, parse_int-IsInt64, next_int64-IsInt64}
use policy_server.Storage.{Storage}
use policy_server.Storage.Contract.{Contract}
use policy_server.Storage.GoMap.{lookup}
use policy_server.Report.{Platform, report}
use policy_server.Handler.{
  WriteOptions, is_dry_run, added, ReportOf, ObjectOf, action, State, stored, broadcast-Total,
  as_report, must_report, decode, Untouched, Untouched-refl, Accepts, check_validation-Accepts,
  check_validation-Still, as_report-Still, raise_if, raise_if-Still, UpdatedObjectInfo,
}
use policy_server.Polr.{
  key, next_version, update_polr, update_stored, update_checked, update_forced, update,
  default_namespace, cannot_create, get,
}
use policy_server.Polr.Reads.{held, get-held, get_polr-held, get_polr-missing, get_polr-state}

module _ (P : Platform) (S : Storage) (C : Contract S) where
  -- The report with the version after `n`.
  abbrev pub bumped : ReportOf P → ℤ → ReportOf P
  bumped r n = record r { resource_version = sprint (next_int64 n) }

  abbrev report_key : ReportOf P → Text
  report_key r = key P.group_version r.name r.namespace

  pub next_version-held :
      (r : ReportOf P) (d : Text) (old : ReportOf P) (n : ℤ) (s : State P S)
      → C.Ready s.store
      → held P S C r.name r.namespace s ≡ some d
      → decode P d ≡ ok old
      → parse_int old.resource_version ≡ (n, none)
      → next_version P S r false s ≡ (ok (bumped r n), s)
  unfolding next_version ◌>>=◌
  next_version-held r d old n s ready h dec rv =
      rw (get_polr-held P S C r.name r.namespace d s ready h) (rw dec (rw rv refl))

  -- The storage call of `updatePolr`.
  abbrev pub replaced : ReportOf P → Text → S.State → Result (Unit {0}) × S.State
  replaced r d t = S.update (report_key r) (parse_int r.resource_version).0 d t

  pub update_stored-held :
      (r : ReportOf P) (d d' : Text) (old : ReportOf P) (n : ℤ) (s : State P S)
      → C.Ready s.store
      → held P S C r.name r.namespace s ≡ some d
      → decode P d ≡ ok old
      → parse_int old.resource_version ≡ (n, none)
      → P.marshal (bumped r n) ≡ ok d'
      → update_stored P S r s ≡ (
        ok (report (bumped r n)),
        record s {
          store = (replaced (bumped r n) d' s.store).1;
          calls = s.calls ++ (action added (report (bumped r n)) ∷ []);
        },
      )
  unfolding update_stored update_polr ◌>>=◌
  update_stored-held r d d' old n s ready h dec rv m =
      let (e, _) =
        C.update_found (report_key r) d' d (parse_int (bumped r n).resource_version).0 s.store ready
          h in
      rw (next_version-held r d old n s ready h dec rv) (rw m (ground arith))

  -- An update that fails before its storage call, or whose storage call is refused, writes nothing.
  next_version-Still :
      (r : ReportOf P) (force : Bool) (s : State P S)
      → C.Ready s.store
      → Still (next_version P S r force) s
  unfolding next_version
  next_version-Still r true s ready = search still_rules
  next_version-Still r false s ready = search (still_rules, get_polr-state P S C)

  update_call-Atomic :
      (k d : Text) (rev : ℤ) (s : State P S)
      → C.Ready s.store
      → Atomic (Untouched P S) (stored P S (S.update k rev d)) s
  update_call-Atomic k d rev s ready = record {
    on_failure = go (lookup k (C.entries s.store)) refl;
  }
    where
      go :
          (x : Option Text)
          → lookup k (C.entries s.store) ≡ x
          → Failed (S.update k rev d s.store).0
          → Untouched P S s (stored P S (S.update k rev d) s).1
      go none e = λ _. rw (C.update_missing k d rev s.store ready e) (refl, refl)
      go (some old) e = rw (C.update_found k d old rev s.store ready e).0 (λ f. elim f [ ])

  update_polr-Atomic :
      (r : ReportOf P) (s : State P S)
      → C.Ready s.store
      → Atomic (Untouched P S) (update_polr P S r false) s
  unfolding update_polr
  update_polr-Atomic r s ready =
      Atomic-bind (Untouched P S) (Untouched-refl P S) _ _ s (next_version-Still r false s ready)
        λ r'. Atomic-bind (Untouched P S) (Untouched-refl P S) _ _ s (search still_rules) λ val.
          Atomic-end (Untouched P S) _ _ s
            (update_call-Atomic (report_key r) val (parse_int r'.resource_version).0 s ready)
            λ _. Total-pure r'

  update_stored-Atomic :
      (r : ReportOf P) (s : State P S)
      → C.Ready s.store
      → Atomic (Untouched P S) (update_stored P S r) s
  unfolding update_stored
  update_stored-Atomic r s ready =
      Atomic-end (Untouched P S) _ _ s
        (Atomic-or_fail (Untouched P S) (cannot_create P S) (update_polr P S r false) s
          (update_polr-Atomic r s ready))
        λ r'. search (Total-bind, broadcast-Total, Total-pure)

  module _ (updated : UpdatedObjectInfo P S)
      (validate : Option (ObjectOf P) → ReportOf P → Option Error) (namespace name : Text)
      (options : WriteOptions) where
    pub update_checked-accepted :
        (d : Text) (old u : ReportOf P) (s : State P S)
        → C.Ready s.store
        → held P S C name namespace s ≡ some d
        → decode P d ≡ ok old
        → updated (some old) ≡ (some (report u), none)
        → Accepts P S (validate (some (report u)) old) options
        → update_checked P S updated validate namespace name options s
          ≡ (if is_dry_run options
                then pure (report (default_namespace P S namespace u))
                else update_stored P S (default_namespace P S namespace u))
              s
    unfolding update_checked as_report raise_if ◌>>=◌
    update_checked-accepted d old u s ready h dec up accepted =
        rw (get_polr-held P S C name namespace d s ready h) (
          rw dec (
            rw
              (up, check_validation-Accepts P S (validate (some (report u)) old) options s accepted)
              refl))

    -- Over a ready storage, an accepted `Update` of a stored report, neither forced nor a dry run,
    -- whose new form has a stored key, a stored resource version that parses, and JSON that
    -- encodes and decodes, stores the new form with the resource version after the stored one,
    -- wrapped at 64 bits. That version reads back. One Added event carries the report, `Get`
    -- returns what its bytes decode to, and other keys keep their bytes.
    pub update_then_get :
        (d d1 d2 : Text) (old u old1 back : ReportOf P) (n : ℤ) (s : State P S)
        → let u0 = default_namespace P S namespace u in
          let u1 = bumped u0 n in
          let t = (update P S updated validate namespace name false options s).1 in
          C.Ready s.store
          → held P S C name namespace s ≡ some d
          → decode P d ≡ ok old
          → updated (some old) ≡ (some (report u), none)
          → Accepts P S (validate (some (report u)) old) options
          → is_dry_run options ≡ false
          → held P S C u0.name u0.namespace s ≡ some d1
          → decode P d1 ≡ ok old1
          → parse_int old1.resource_version ≡ (n, none)
          → P.marshal u1 ≡ ok d2
          → decode P d2 ≡ ok back
          → ((update P S updated validate namespace name false options s).0 ≡ ok (report u1))
            × (parse_int u1.resource_version ≡ (next_int64 n, none))
            × (t.calls ≡ s.calls ++ (action added (report u1) ∷ []))
            × (get P S u0.namespace u0.name t ≡ (ok back, t))
            × ((j : Text)
                → text_eq (key P.group_version u0.name u0.namespace) j ≡ false
                → lookup j (C.entries t.store) ≡ lookup j (C.entries s.store))
    unfolding update
    update_then_get d d1 d2 old u old1 back n s ready h dec up accepted wet h1 dec1 rv m back_ok =
        let u0 : ReportOf P = default_namespace P S namespace u in
        let k = key P.group_version u0.name u0.namespace in
        let rev = (parse_int (bumped u0 n).resource_version).0 in
        let (done, kept) = C.update_found k d2 d1 rev s.store ready h1 in
        let in_range : IsInt64 n =
          subst (λ (x : ℤ × Option Error). IsInt64 x.0) rv
            (parse_int-IsInt64 old1.resource_version) in
        rw
          (
            update_checked-accepted d old u s ready h dec up accepted,
            wet,
            update_stored-held u0 d1 d2 old1 n s ready h1 dec1 rv m,
          )
          (
            refl,
            parse_int-sprint (next_int64 n) (next_int64-IsInt64 n in_range),
            refl,
            get-held P S C u0.namespace u0.name d2 back _ (C.update-Ready k d2 rev s.store ready)
                (kept k ∙ rw (text_eq_refl k) refl) back_ok,
            λ j other. kept j ∙ rw other refl,
          )

    update_checked-Atomic :
        (s : State P S)
        → C.Ready s.store
        → Atomic (Untouched P S) (update_checked P S updated validate namespace name options) s
    unfolding update_checked
    update_checked-Atomic s ready =
        search
          (
            atomic_rules,
            Untouched-refl,
            get_polr-state P S C,
            check_validation-Still P S,
            as_report-Still P S,
            raise_if-Still P S,
            update_stored-Atomic,
          )
          depth 8

    -- Over a ready storage, `Update` without `forceAllowCreate` that returns an error, or panics,
    -- has stored nothing and told no watcher.
    pub update-Failed :
        (s : State P S)
        → C.Ready s.store
        → Failed (update P S updated validate namespace name false options s).0
        → Untouched P S s (update P S updated validate namespace name false options s).1
    unfolding update
    update-Failed s ready = (update_checked-Atomic s ready).on_failure

    dry_run-Still :
        (s : State P S)
        → C.Ready s.store
        → is_dry_run options ≡ true
        → Still (update_checked P S updated validate namespace name options) s
    unfolding update_checked
    dry_run-Still s ready dry = rw dry (
        search
          (
            still_rules,
            get_polr-state P S C,
            check_validation-Still P S,
            as_report-Still P S,
            raise_if-Still P S,
          )
          depth 9)

    -- Over a ready storage, a dry run of `Update` without `forceAllowCreate` changes nothing at
    -- all.
    pub update_dry_run :
        (s : State P S)
        → C.Ready s.store
        → is_dry_run options ≡ true
        → (update P S updated validate namespace name false options s).1 ≡ s
    unfolding update
    update_dry_run s ready dry = (dry_run-Still s ready dry).same

    -- `Update` of a report that is not stored fails, without `forceAllowCreate`, and changes nothing.
    pub update_missing :
        (s : State P S)
        → C.Ready s.store
        → held P S C name namespace s ≡ none
        → update P S updated validate namespace name false options s ≡ (
          err (
              wrapped
                (codes "could not find policy report in store")
                (C.missing (key P.group_version name namespace))),
          s,
        )
    unfolding update update_checked ◌>>=◌
    update_missing s ready h = rw (get_polr-missing P S C name namespace s ready h) refl
