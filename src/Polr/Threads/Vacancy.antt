-- ===== src/Polr/Threads/Vacancy.antt =====
-- Whether a key is free, and the steps of the threads of pkg/api/polr.go that leave that as it is.
use policy_server.Prelude.{
  ℕ, ◌≡◌, refl, ap, ◌∙◌, subst, Bool, true, false, Option, none, some, if◌then◌else◌,
}
use policy_server.Prelude.Texts.{Text, text_eq, text_eq_iff}
use policy_server.Result.{Error}
use policy_server.Result.Steps.{Still}
use policy_server.Result.Keeps.{Keeps, keeps_rules}
use policy_server.Strconv.{ℤ}
use policy_server.Storage.{Storage}
use policy_server.Storage.Contract.{Contract}
use policy_server.Storage.GoMap.{lookup}
use policy_server.Report.{Platform, report}
use policy_server.Handler.{
  must_report, EventType, ReportOf, ObjectOf, State, stored, broadcast, check_validation, as_report,
  raise_if, Handler, check_validation-Still, as_report-Still, raise_if-Still,
}
use policy_server.Polr.{update_polr, polr_to_obj, get_polr, next_version}
use policy_server.Polr.Reads.{get_polr-state}
use policy_server.Polr.Threads.{
  force_step, force_write, delete_step, DeleteRequest, UpdateRequest, update_step, version_step,
  write_version, write_step, tell_step,
}

-- One if nothing is stored.
unfoldable pub vacant : {A : Type 0} → Option A → ℕ
vacant none = 1
vacant (some d) = 0

-- What replaces bytes leaves a key taken.
vacant-replace :
    (same : Bool) (old : Option Text) (y val : Text)
    → (same ≡ true → old ≡ some y)
    → vacant (if same then some val else old) ≡ vacant old
unfolding vacant
vacant-replace true old y val h = rw (h refl) refl
vacant-replace false old y val h = refl

module _ (P : Platform) (S : Storage) (C : Contract S) (k : Text) where
  abbrev pub vacancy : State P S → ℕ
  vacancy s = vacant (lookup k (C.entries s.store))

  module _ (v : ℕ) where
    -- The storage works, and the key is free, or taken, as `v` says.
    pub record Vacancy (s : State P S) : Type 0 where
      pub ready : C.Ready s.store
      pub count : vacancy s ≡ v

    pub update_call-Vacancy :
        (j val : Text) (rev : ℤ) → Keeps Vacancy (stored P S (S.update j rev val))
    update_call-Vacancy j val rev = record {
      after = λ s i. go s i (lookup j (C.entries s.store)) refl;
    }
      where
        go :
            (s : State P S)
            → Vacancy s
            → (y : Option Text) → lookup j (C.entries s.store) ≡ y
            → Vacancy (stored P S (S.update j rev val) s).1
        go s i none e = rw (C.update_missing _ val rev s.store i.ready e) i
        go s i (some old) e = record {
          ready = C.update-Ready _ val rev s.store i.ready;
          count =
              ap vacant ((C.update_found _ val old rev s.store i.ready e).1 k)
              ∙ vacant-replace (text_eq j k) (lookup k (C.entries s.store)) old val (λ same.
                subst (λ x. lookup x (C.entries s.store) ≡ some old) ((text_eq_iff j k).0 same) e)
              ∙ i.count;
        }

    Still-Keeps :
        {A : Type 0} (m : Handler P S A)
        → ((s : State P S) → C.Ready s.store → Still m s)
        → Keeps Vacancy m
    Still-Keeps m h = record { after = λ s i. rw ((h s i.ready).same) i }

    pub broadcast-Vacancy :
        (kind : EventType) (object : ObjectOf P) → Keeps Vacancy (broadcast P S kind object)
    broadcast-Vacancy kind object = record {
      after = λ s i. record { ready = i.ready; count = i.count };
    }

    pub check_validation-Vacancy :
        (answer : Option Error) (mode : Text) → Keeps Vacancy (check_validation P S answer mode)
    check_validation-Vacancy answer mode =
        Still-Keeps _ λ s _. check_validation-Still P S answer mode s

    pub as_report-Vacancy :
        (message : Text) (o : Option (ObjectOf P)) → Keeps Vacancy (as_report P S message o)
    as_report-Vacancy message o = Still-Keeps _ λ s _. as_report-Still P S message o s

    raise_if-Vacancy : (e : Option Error) → Keeps Vacancy (raise_if P S e)
    raise_if-Vacancy e = Still-Keeps _ λ s _. raise_if-Still P S e s

    get_polr-Vacancy : (name namespace : Text) → Keeps Vacancy (get_polr P S name namespace)
    get_polr-Vacancy name namespace = Still-Keeps _ (get_polr-state P S C name namespace)

    pub update_step-Vacancy : (q : UpdateRequest P S) → Keeps Vacancy (update_step P S q)
    unfolding update_step
    update_step-Vacancy q =
        search
          (
            keeps_rules, get_polr-Vacancy, raise_if-Vacancy, check_validation-Vacancy,
            as_report-Vacancy,
          )
          depth 12

    pub version_step-Vacancy : (r : ReportOf P) → Keeps Vacancy (version_step P S r)
    unfolding version_step next_version
    version_step-Vacancy r = search (keeps_rules, get_polr-Vacancy) depth 9

    pub write_step-Vacancy : (r : ReportOf P) → Keeps Vacancy (write_step P S r)
    unfolding write_step write_version
    write_step-Vacancy r = search (keeps_rules, update_call-Vacancy) depth 9

    pub tell_step-Vacancy : (r : ReportOf P) → Keeps Vacancy (tell_step P S r)
    unfolding tell_step
    tell_step-Vacancy r = search (keeps_rules, broadcast-Vacancy)

    must_report-Vacancy : (o : Option (ObjectOf P)) → Keeps Vacancy (must_report P S o)
    unfolding must_report
    must_report-Vacancy (some (report r)) = search keeps_rules
    must_report-Vacancy none = search keeps_rules
    must_report-Vacancy (some o) = search keeps_rules

    pub force_step-Vacancy : (q : UpdateRequest P S) → Keeps Vacancy (force_step P S q)
    unfolding force_step
    force_step-Vacancy q = search (keeps_rules, get_polr-Vacancy, must_report-Vacancy) depth 9

    pub force_write-Vacancy : (r : ReportOf P) → Keeps Vacancy (force_write P S r)
    unfolding force_write update_polr next_version
    force_write-Vacancy r = search (keeps_rules, update_call-Vacancy) depth 10

    pub polr_to_obj-Vacancy : (r : ReportOf P) → Keeps Vacancy (polr_to_obj P S r)
    unfolding polr_to_obj
    polr_to_obj-Vacancy r = search keeps_rules

    pub delete_step-Vacancy : (q : DeleteRequest P S) → Keeps Vacancy (delete_step P S q)
    unfolding delete_step
    delete_step-Vacancy q =
        search (keeps_rules, get_polr-Vacancy, raise_if-Vacancy, polr_to_obj-Vacancy) depth 9
