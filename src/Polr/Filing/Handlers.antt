-- ===== src/Polr/Filing/Handlers.antt =====
-- The handlers of pkg/api/polr.go keep every report filed under its own namespace and name.
use policy_server.Prelude.{
  ◌≡◌, refl, subst, arith, Bool, true, false, Option, none, some, List, [], ◌∷◌,
}
use policy_server.Prelude.Texts.{Text, codes, NoSlash}
use policy_server.Result.{Error, ok, ◌>>=◌}
use policy_server.Result.Keeps.{
  Keeps, pure-Keeps, or_fail-Keeps, attempt-Keeps, if-Keeps, bind-Keeps, bind_pure-Keeps,
  bind_lift-Keeps, keeps_rules, Yields, pure-Yields, bind-Yields, bind_lift-Yields,
  bind_yield-Keeps,
}
use policy_server.Strconv.{ℤ, pos, IsInt64, next_int64, parse_int, parse_uint}
use policy_server.Strconv.RoundTrip.{parse_int-sprint, parse_int-IsInt64, next_int64-IsInt64}
use policy_server.Storage.{Storage}
use policy_server.Storage.Contract.{Contract}
use policy_server.Report.{Platform, report}
use policy_server.Handler.{
  WriteOptions, is_dry_run, ListOptions, ReportOf, ObjectOf, State, Handler, check_validation,
  as_report, must_report, raise_if, UpdatedObjectInfo,
}
use policy_server.Polr.{
  parsed, list_polr, create_polr, next_version, update_polr, delete_polr, polr_to_obj, list, get,
  default_namespace, create_stored, create, update_forced, update_stored, update_checked, update,
  delete_report, delete, delete_loop, delete_collection_by, delete_collection,
}
use policy_server.Polr.Filing.{
  HasVersion, Writes, IsPlaced, IsFiled, create_call-Keeps, update_call-Keeps, delete_call-Keeps,
  list_call-Keeps, get_polr-Keeps, broadcast-Keeps, fresh_uid-Keeps, current_time-Keeps,
}

version_one : parse_int (codes "1") ≡ (pos 1, none)
unfolding parse_int parse_uint
version_one = refl

parsed-IsInt64 : (s : Text) (n : ℤ) → parsed (parse_int s) ≡ ok n → IsInt64 n
parsed-IsInt64 s n e = go (parse_int s) (parse_int-IsInt64 s) e
  where
    go : (x : ℤ × Option Error) → IsInt64 x.0 → parsed x ≡ ok n → IsInt64 n
    go (m, none) h e' = subst IsInt64 (cc) h
    go (m, some y) h e' = absurd (cc)

module _ (P : Platform) (S : Storage) (C : Contract S) (Q : Text → Text → Text → Type 0) where
  check_validation-Keeps :
      (answer : Option Error) (mode : Text)
      → Keeps (IsFiled P S C Q) (check_validation P S answer mode)
  unfolding check_validation
  check_validation-Keeps none mode = search keeps_rules
  check_validation-Keeps (some e) mode = search keeps_rules

  raise_if-Keeps : (e : Option Error) → Keeps (IsFiled P S C Q) (raise_if P S e)
  unfolding raise_if
  raise_if-Keeps none = search keeps_rules
  raise_if-Keeps (some e) = search keeps_rules

  -- The rest of a handler may use which object the report is.
  as_report-Keeps :
      (message : Text) (o : Option (ObjectOf P)) (f : ReportOf P → Handler P S (ObjectOf P))
      → ((r : ReportOf P) → o ≡ some (report r) → Keeps (IsFiled P S C Q) (f r))
      → Keeps (IsFiled P S C Q) (as_report P S message o >>= f)
  unfolding as_report
  as_report-Keeps message (some (report r)) f k = bind_pure-Keeps r f (k r refl)
  as_report-Keeps message none f k = record { after = λ s i. unfold ◌>>=◌ in i }
  as_report-Keeps message (some o) f k = record { after = λ s i. unfold ◌>>=◌ in i }

  must_report-Keeps :
      (o : Option (ObjectOf P)) (f : ReportOf P → Handler P S (ObjectOf P))
      → ((r : ReportOf P) → o ≡ some (report r) → Keeps (IsFiled P S C Q) (f r))
      → Keeps (IsFiled P S C Q) (must_report P S o >>= f)
  unfolding must_report
  must_report-Keeps (some (report r)) f k = bind_pure-Keeps r f (k r refl)
  must_report-Keeps none f k = record { after = λ s i. unfold ◌>>=◌ in i }
  must_report-Keeps (some o) f k = record { after = λ s i. unfold ◌>>=◌ in i }

  placed_report :
      (namespace : Text) (o : Option (ObjectOf P)) (r : ReportOf P)
      → IsPlaced P S namespace o
      → o ≡ some (report r)
      → NoSlash r.namespace × NoSlash (default_namespace P S namespace r).namespace
  placed_report namespace o r h e = rw e at h

  module _ (writes : Writes P Q) where
    create_stored-Keeps :
        (r : ReportOf P) → NoSlash r.namespace → Keeps (IsFiled P S C Q) (create_stored P S r)
    unfolding create_stored create_polr
    create_stored-Keeps r plain =
        bind-Keeps _ _
          (or_fail-Keeps _ _ (
            bind-Keeps _ _ (fresh_uid-Keeps P S C Q) λ uid.
              bind-Keeps _ _ (current_time-Keeps P S C Q) λ now. bind_lift-Keeps _ _ _ λ val m.
                bind-Keeps _ _
                  (create_call-Keeps P S C Q writes _ val plain
                    (pos 1, parse_int-sprint (pos 1) (omega arith)) m)
                  λ _. pure-Keeps _))
          λ r'. bind-Keeps _ _ (broadcast-Keeps P S C Q _ _) λ _. pure-Keeps _

    -- `Create` keeps the reports filed, whatever its outcome.
    pub create-IsFiled :
        (validate : ObjectOf P → Option Error) (namespace : Text) (obj : ObjectOf P)
        (options : WriteOptions) (s : State P S)
        → IsPlaced P S namespace (some obj)
        → IsFiled P S C Q s
        → IsFiled P S C Q (create P S validate namespace obj options s).1
    unfolding create
    create-IsFiled validate namespace obj options s placed i =
        (bind-Keeps _ _ (check_validation-Keeps (validate obj) options.field_validation) λ _.
            as_report-Keeps _ (some obj) _ λ r e.
              if-Keeps (is_dry_run options) _ _ (pure-Keeps _)
                (create_stored-Keeps _ (placed_report namespace (some obj) r placed e).1)).after
          s i

    -- The new version of a report has its name and namespace, and a version that parses.
    abbrev Versioned : ReportOf P → ReportOf P → Type 0
    Versioned r r' =
        (r.name ≡ r'.name) × (r.namespace ≡ r'.namespace) × HasVersion r'.resource_version

    next_version-Yields :
        (r : ReportOf P) (force : Bool) → Yields (Versioned r) (next_version P S r force)
    unfolding next_version
    next_version-Yields r true = pure-Yields (Versioned r) _ (refl, refl, (pos 1, version_one))
    next_version-Yields r false = bind-Yields (Versioned r) _ _ λ old.
        bind_lift-Yields (Versioned r) _ _ _ λ rv e. pure-Yields (Versioned r) _ (
          refl,
          refl,
          (
            next_int64 rv,
            parse_int-sprint (next_int64 rv)
                (next_int64-IsInt64 rv (parsed-IsInt64 old.resource_version rv e)),
          ),
        )

    next_version-Keeps :
        (r : ReportOf P) (force : Bool) → Keeps (IsFiled P S C Q) (next_version P S r force)
    unfolding next_version
    next_version-Keeps r true = pure-Keeps _
    next_version-Keeps r false = search (keeps_rules, get_polr-Keeps P S C Q)

    update_polr-Keeps :
        (r : ReportOf P) (force : Bool)
        → NoSlash r.namespace
        → Keeps (IsFiled P S C Q) (update_polr P S r force)
    unfolding update_polr
    update_polr-Keeps r force plain =
        bind_yield-Keeps (Versioned r) _ _ (next_version-Keeps r force)
          (next_version-Yields r force)
          λ r' (n, ns, v). bind_lift-Keeps _ _ _ λ val m.
            bind-Keeps _ _
              (rw (n, ns)
                (update_call-Keeps P S C Q writes r' val (parse_int r'.resource_version).0
                  (rw ns at plain) v m))
              λ _. pure-Keeps _

    update_stored-Keeps :
        (r : ReportOf P) → NoSlash r.namespace → Keeps (IsFiled P S C Q) (update_stored P S r)
    unfolding update_stored
    update_stored-Keeps r plain =
        bind-Keeps _ _ (or_fail-Keeps _ _ (update_polr-Keeps r false plain))
          λ r'. bind-Keeps _ _ (broadcast-Keeps P S C Q _ _) λ _. pure-Keeps _

    -- `Update` keeps the reports filed, whatever its outcome, forced or not, if the objects that it is
    -- given are placed.
    pub update-IsFiled :
        (updated : UpdatedObjectInfo P S)
        (validate : Option (ObjectOf P) → ReportOf P → Option Error) (namespace name : Text)
        (force : Bool) (options : WriteOptions) (s : State P S)
        → ((old : Option (ReportOf P)) → IsPlaced P S namespace (updated old).0)
        → IsFiled P S C Q s
        → IsFiled P S C Q (update P S updated validate namespace name force options s).1
    unfolding update update_forced update_checked
    update-IsFiled updated validate namespace name true options s placed i =
        (bind-Keeps _ _ (attempt-Keeps _ (get_polr-Keeps P S C Q name namespace)) λ old.
            must_report-Keeps (updated old).0 _ λ r e.
              bind-Keeps _ _
                (attempt-Keeps _ (
                  update_polr-Keeps r true
                    (placed_report namespace (updated old).0 r (placed old) e).0))
                λ _. bind-Keeps _ _ (broadcast-Keeps P S C Q _ _) λ _. pure-Keeps _).after
          s i
    update-IsFiled updated validate namespace name false options s placed i =
        (bind-Keeps _ _ (get_polr-Keeps P S C Q name namespace) λ old.
            bind-Keeps _ _ (raise_if-Keeps (updated (some old)).1) λ _.
              bind-Keeps _ _
                (check_validation-Keeps (validate (updated (some old)).0 old)
                  options.field_validation)
                λ _. as_report-Keeps _ (updated (some old)).0 _ λ r e.
                  if-Keeps (is_dry_run options) _ _ (pure-Keeps _) (
                    update_stored-Keeps _
                      (placed_report namespace (updated (some old)).0 r (placed (some old))
                        e).1)).after
          s i

  delete-Keeps :
      (validate : ReportOf P → Option Error) (namespace : Text) (options : WriteOptions)
      (name : Text)
      → Keeps (IsFiled P S C Q) (delete P S validate namespace options name)
  unfolding delete delete_report delete_polr polr_to_obj
  delete-Keeps validate namespace options name =
      search
        (
          keeps_rules,
          get_polr-Keeps P S C Q,
          raise_if-Keeps,
          delete_call-Keeps P S C Q,
          broadcast-Keeps P S C Q,
        )
        depth 12

  list-Keeps :
      (namespace : Text) (options : Option (ListOptions P))
      → Keeps (IsFiled P S C Q) (list P S namespace options)
  unfolding list list_polr
  list-Keeps namespace options = search (keeps_rules, list_call-Keeps P S C Q) depth 9

  delete_loop-Keeps :
      (delete_one : Text → Handler P S (ObjectOf P)) (rs : List (ReportOf P))
      → ((name : Text) → Keeps (IsFiled P S C Q) (delete_one name))
      → Keeps (IsFiled P S C Q) (delete_loop P S delete_one rs)
  unfolding delete_loop
  delete_loop-Keeps delete_one [] h = pure-Keeps _
  delete_loop-Keeps delete_one (r ∷ rs) h =
      bind-Keeps _ _ (or_fail-Keeps _ _ (h r.name))
        λ obj. bind-Keeps _ _ (broadcast-Keeps P S C Q _ _) λ _. delete_loop-Keeps delete_one rs h

  -- `Delete` keeps the reports filed, whatever its outcome.
  pub delete-IsFiled :
      (validate : ReportOf P → Option Error) (namespace : Text) (options : WriteOptions)
      (name : Text) (s : State P S)
      → IsFiled P S C Q s
      → IsFiled P S C Q (delete P S validate namespace options name s).1
  delete-IsFiled validate namespace options name =
      (delete-Keeps validate namespace options name).after

  -- `DeleteCollection` keeps the reports filed, whatever its outcome.
  pub delete_collection-IsFiled :
      (validate : ReportOf P → Option Error) (namespace : Text) (options : WriteOptions)
      (list_options : Option (ListOptions P)) (s : State P S)
      → IsFiled P S C Q s
      → IsFiled P S C Q (delete_collection P S validate namespace options list_options s).1
  unfolding delete_collection delete_collection_by
  delete_collection-IsFiled validate namespace options list_options s i =
      (bind-Keeps _ _ (or_fail-Keeps _ _ (list-Keeps namespace list_options)) λ found.
          if-Keeps (is_dry_run options) _ _ (pure-Keeps _) (
            bind-Keeps _ _
              (delete_loop-Keeps _ found.items (delete-Keeps validate namespace options))
              λ _. pure-Keeps _)).after
        s i

  -- `List` and `Get` keep the reports filed.
  pub list-IsFiled :
      (namespace : Text) (options : Option (ListOptions P)) (s : State P S)
      → IsFiled P S C Q s
      → IsFiled P S C Q (list P S namespace options s).1
  list-IsFiled namespace options = (list-Keeps namespace options).after

  pub get-IsFiled :
      (namespace name : Text) (s : State P S)
      → IsFiled P S C Q s
      → IsFiled P S C Q (get P S namespace name s).1
  unfolding get
  get-IsFiled namespace name = (or_fail-Keeps _ _ (get_polr-Keeps P S C Q name namespace)).after
