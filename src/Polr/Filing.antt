-- ===== src/Polr/Filing.antt =====
-- Every stored report is filed under its own namespace and name: an invariant of all the handlers of
-- pkg/api/polr.go.
pub mod Handlers
use policy_server.Prelude.{
  ℕ, ◌≡◌, refl, sym, ap, ◌∙◌, subst, ◌⊎◌, inl, inr, Bool, true, false, Bool-cases, Option, none,
  some, List, [], ◌∷◌, ◌++◌, arith, if◌then◌else◌,
}
use policy_server.Prelude.Texts.{Text, codes, text_eq, text_eq_iff, NoSlash}
use policy_server.Result.{
  Error, Result, ok, err, panicked, or_fail, pure, raise, lift, attempt, ◌>>=◌, ◌>>◌,
}
use policy_server.Result.Keeps.{
  Keeps, pure-Keeps, raise-Keeps, lift-Keeps, or_fail-Keeps, attempt-Keeps, if-Keeps, bind-Keeps,
  bind_pure-Keeps, bind_lift-Keeps, keeps_rules,
}
use policy_server.Strconv.{ℤ, parse_int}
use policy_server.Storage.{Value, Storage}
use policy_server.Storage.Contract.{Contract}
use policy_server.Storage.GoMap.{lookup}
use policy_server.Report.{ReportList, Platform, report, report_list, unstructured, foreign_object}
use policy_server.Handler.{
  WriteOptions, is_dry_run, EventType, ListOptions, ReportOf, ObjectOf, State, Handler, stored,
  broadcast, fresh_uid, current_time, check_validation, as_report, must_report, decode, raise_if,
  UpdatedObjectInfo,
}
use policy_server.Polr.{
  key, key_for_list, get_polr, list_polr, create_polr, next_version, update_polr, delete_polr,
  polr_to_obj, list, get, default_namespace, create_stored, create, update_forced, update_stored,
  update_checked, update, delete_report, delete, delete_loop, delete_collection_by,
  delete_collection, invalid_resource,
}
use policy_server.Polr.Keys.{key_injective}
use policy_server.Polr.Reads.{held, get_polr-state}

-- A resource version that parses.
abbrev pub HasVersion : Text → Type 0
HasVersion v = (n : ℤ) × (parse_int v ≡ (n, none))

-- `Q` holds of what is stored for a name and a namespace: of the bytes of every report with a resource
-- version that parses.
abbrev pub Writes : Platform → (Text → Text → Text → Type 0) → Type 0
Writes P Q =
    (r : ReportOf P) (val : Text)
    → HasVersion r.resource_version
    → P.marshal r ≡ ok val
    → Q r.name r.namespace val

module _ (P : Platform) (S : Storage) where
  -- An object that is a report has, or is given, a namespace without a slash.
  abbrev pub IsPlaced : Text → Option (ObjectOf P) → Type 0
  IsPlaced namespace (some (report r)) =
      NoSlash r.namespace × NoSlash (default_namespace P S namespace r).namespace
  IsPlaced namespace _ = Unit

module _ (P : Platform) (S : Storage) (C : Contract S) (Q : Text → Text → Text → Type 0) where
  -- The storage works, and `Q` holds of the bytes under each name and namespace.
  pub record IsFiled (s : State P S) : Type 0 where
    pub ready : C.Ready s.store
    pub filed :
        (name namespace d : Text)
        → NoSlash namespace
        → held P S C name namespace s ≡ some d
        → Q name namespace d

  module _ (writes : Writes P Q) where
    write-IsFiled :
        (r : ReportOf P) (val : Text) (s t : State P S)
        → NoSlash r.namespace
        → HasVersion r.resource_version
        → P.marshal r ≡ ok val
        → IsFiled s
        → C.Ready t.store
        → ((j : Text)
            → lookup j (C.entries t.store) ≡ (
                if text_eq (key P.group_version r.name r.namespace) j
                then some val
                else lookup j (C.entries s.store)))
        → IsFiled t
    write-IsFiled r val s t plain v m i ready entries = record {
      ready = ready;
      filed = λ name namespace d plain' h.
          let k = key P.group_version r.name r.namespace in
          let j = key P.group_version name namespace in
          elim (Bool-cases (text_eq k j)) [
            | inl same ↦
                let (p, q) =
                  key_injective P.group_version r.name name r.namespace namespace plain plain'
                    ((text_eq_iff k j).0 same) in
                let written : val ≡ d = ground (arith, entries j) in
                subst (Q name namespace) written (rw (p, q) at (writes r val v m))
            | inr other ↦ i.filed name namespace d plain' (ground (arith, entries j))
          ];
    }

    pub create_call-Keeps :
        (r : ReportOf P) (val : Text)
        → NoSlash r.namespace
        → HasVersion r.resource_version
        → P.marshal r ≡ ok val
        → Keeps IsFiled (stored P S (S.create (key P.group_version r.name r.namespace) val))
    create_call-Keeps r val plain v m = record {
      after =
          λ s i. go s i (lookup (key P.group_version r.name r.namespace) (C.entries s.store)) refl;
    }
      where
        go :
            (s : State P S)
            → IsFiled s
            → (x : Option Text)
            → lookup (key P.group_version r.name r.namespace) (C.entries s.store) ≡ x
            → IsFiled (stored P S (S.create (key P.group_version r.name r.namespace) val) s).1
        go s i none e =
            write-IsFiled r val s _ plain v m i (C.create-Ready _ val s.store i.ready)
              (C.create_new _ val s.store i.ready e).1
        go s i (some old) e = rw (C.create_present _ val old s.store i.ready e) i

    pub update_call-Keeps :
        (r : ReportOf P) (val : Text) (rev : ℤ)
        → NoSlash r.namespace
        → HasVersion r.resource_version
        → P.marshal r ≡ ok val
        → Keeps IsFiled (stored P S (S.update (key P.group_version r.name r.namespace) rev val))
    update_call-Keeps r val rev plain v m = record {
      after =
          λ s i. go s i (lookup (key P.group_version r.name r.namespace) (C.entries s.store)) refl;
    }
      where
        go :
            (s : State P S)
            → IsFiled s
            → (x : Option Text)
            → lookup (key P.group_version r.name r.namespace) (C.entries s.store) ≡ x
            → IsFiled (stored P S (S.update (key P.group_version r.name r.namespace) rev val) s).1
        go s i none e = rw (C.update_missing _ val rev s.store i.ready e) i
        go s i (some old) e =
            write-IsFiled r val s _ plain v m i (C.update-Ready _ val rev s.store i.ready)
              (C.update_found _ val old rev s.store i.ready e).1

  pub delete_call-Keeps : (k : Text) (rev : ℤ) → Keeps IsFiled (stored P S (S.delete k rev))
  delete_call-Keeps k rev = record { after = λ s i. go s i (lookup k (C.entries s.store)) refl }
    where
      go :
          (s : State P S)
          → IsFiled s
          → (x : Option Text) → lookup k (C.entries s.store) ≡ x
          → IsFiled (stored P S (S.delete k rev) s).1
      go s i none e = rw (C.delete_missing k rev s.store i.ready e) i
      go s i (some old) e = record {
        ready = C.delete-Ready k rev s.store i.ready;
        filed = λ name namespace d plain h.
            let (_, kept) = C.delete_found k old rev s.store i.ready e in
            i.filed name namespace d plain
              (ground (arith, kept (key P.group_version name namespace)));
      }

  pub list_call-Keeps : (prefix : Text) (rev : ℕ) → Keeps IsFiled (stored P S (S.list prefix rev))
  list_call-Keeps prefix rev = record {
    after = λ s i.
        let (vs, _, _, same) = C.list_lem prefix rev s.store i.ready in
        record {
          ready = C.list-Ready prefix rev s.store i.ready;
          filed = λ name namespace d plain h. i.filed name namespace d plain (rw same at h);
        };
  }

  pub get_polr-Keeps : (name namespace : Text) → Keeps IsFiled (get_polr P S name namespace)
  get_polr-Keeps name namespace = record {
    after = λ s i. rw ((get_polr-state P S C name namespace s i.ready).same) i;
  }

  pub broadcast-Keeps :
      (kind : EventType) (object : ObjectOf P) → Keeps IsFiled (broadcast P S kind object)
  broadcast-Keeps kind object = record {
    after = λ s i. record { ready = i.ready; filed = i.filed };
  }

  pub fresh_uid-Keeps : Keeps IsFiled (fresh_uid P S)
  fresh_uid-Keeps = record { after = λ s i. record { ready = i.ready; filed = i.filed } }

  pub current_time-Keeps : Keeps IsFiled (current_time P S)
  current_time-Keeps = record { after = λ s i. record { ready = i.ready; filed = i.filed } }
