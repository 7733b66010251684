-- ===== src/Handler/Frame.antt =====
-- Steps of the report handlers that leave one key of the storage alone.
use policy_server.Prelude.{ℕ, ◌≡◌, refl, ◌∙◌, false, Option, none, some}
use policy_server.Prelude.Texts.{Text, text_eq}
use policy_server.Result.{Error}
use policy_server.Result.Keeps.{Keeps, keeps_rules}
use policy_server.Strconv.{ℤ}
use policy_server.Storage.{Storage}
use policy_server.Storage.Contract.{Contract}
use policy_server.Storage.GoMap.{lookup}
use policy_server.Report.{Platform, report}
use policy_server.Handler.{
  EventType, ObjectOf, State, stored, broadcast, fresh_uid, current_time, check_validation,
  as_report, must_report, raise_if,
}

module _ (P : Platform) (S : Storage) (C : Contract S) (k : Text) (x : Option Text) where
  -- The storage works and has `x` at the key `k`.
  pub record Has (s : State P S) : Type 0 where
    pub ready : C.Ready s.store
    pub has : lookup k (C.entries s.store) ≡ x

  pub create_call-Has :
      (j val : Text) → text_eq j k ≡ false → Keeps Has (stored P S (S.create j val))
  create_call-Has j val other = record { after = λ s i. go s i (lookup j (C.entries s.store)) refl }
    where
      go :
          (s : State P S)
          → Has s
          → (y : Option Text) → lookup j (C.entries s.store) ≡ y
          → Has (stored P S (S.create j val) s).1
      go s i none e = record {
        ready = C.create-Ready _ val s.store i.ready;
        has = (C.create_new _ val s.store i.ready e).1 k ∙ (rw other i.has);
      }
      go s i (some old) e = rw (C.create_present _ val old s.store i.ready e) i

  pub update_call-Has :
      (j val : Text) (rev : ℤ) → text_eq j k ≡ false → Keeps Has (stored P S (S.update j rev val))
  update_call-Has j val rev other = record {
    after = λ s i. go s i (lookup j (C.entries s.store)) refl;
  }
    where
      go :
          (s : State P S)
          → Has s
          → (y : Option Text) → lookup j (C.entries s.store) ≡ y
          → Has (stored P S (S.update j rev val) s).1
      go s i none e = rw (C.update_missing _ val rev s.store i.ready e) i
      go s i (some old) e = record {
        ready = C.update-Ready _ val rev s.store i.ready;
        has = (C.update_found _ val old rev s.store i.ready e).1 k ∙ (rw other i.has);
      }

  pub delete_call-Has :
      (j : Text) (rev : ℤ) → text_eq j k ≡ false → Keeps Has (stored P S (S.delete j rev))
  delete_call-Has j rev other = record { after = λ s i. go s i (lookup j (C.entries s.store)) refl }
    where
      go :
          (s : State P S)
          → Has s
          → (y : Option Text) → lookup j (C.entries s.store) ≡ y
          → Has (stored P S (S.delete j rev) s).1
      go s i none e = rw (C.delete_missing _ rev s.store i.ready e) i
      go s i (some old) e = record {
        ready = C.delete-Ready _ rev s.store i.ready;
        has = (C.delete_found _ old rev s.store i.ready e).1 k ∙ (rw other i.has);
      }

  pub list_call-Has : (prefix : Text) (rev : ℕ) → Keeps Has (stored P S (S.list prefix rev))
  list_call-Has prefix rev = record {
    after = λ s i.
        let (_, _, _, same) = C.list_lem prefix rev s.store i.ready in
        record { ready = C.list-Ready prefix rev s.store i.ready; has = rw same i.has };
  }

  pub broadcast-Has :
      (kind : EventType) (object : ObjectOf P) → Keeps Has (broadcast P S kind object)
  broadcast-Has kind object = record { after = λ s i. record { ready = i.ready; has = i.has } }

  pub fresh_uid-Has : Keeps Has (fresh_uid P S)
  fresh_uid-Has = record { after = λ s i. record { ready = i.ready; has = i.has } }

  pub current_time-Has : Keeps Has (current_time P S)
  current_time-Has = record { after = λ s i. record { ready = i.ready; has = i.has } }

  pub check_validation-Has :
      (answer : Option Error) (mode : Text) → Keeps Has (check_validation P S answer mode)
  unfolding check_validation
  check_validation-Has none mode = search keeps_rules
  check_validation-Has (some e) mode = search keeps_rules

  pub raise_if-Has : (e : Option Error) → Keeps Has (raise_if P S e)
  unfolding raise_if
  raise_if-Has none = search keeps_rules
  raise_if-Has (some e) = search keeps_rules

  pub as_report-Has :
      (message : Text) (o : Option (ObjectOf P)) → Keeps Has (as_report P S message o)
  unfolding as_report
  as_report-Has message (some (report r)) = search keeps_rules
  as_report-Has message none = search keeps_rules
  as_report-Has message (some o) = search keeps_rules

  pub must_report-Has : (o : Option (ObjectOf P)) → Keeps Has (must_report P S o)
  unfolding must_report
  must_report-Has (some (report r)) = search keeps_rules
  must_report-Has none = search keeps_rules
  must_report-Has (some o) = search keeps_rules
