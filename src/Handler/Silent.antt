-- ===== src/Handler/Silent.antt =====
-- Steps of the report handlers that make no call to the broadcaster, whatever their outcome.
use policy_server.Prelude.{◌≡◌, Option, none, some, List}
use policy_server.Prelude.Texts.{Text}
use policy_server.Result.{Error, Exec}
use policy_server.Result.Keeps.{Keeps, keeps_rules}
use policy_server.Storage.{Storage}
use policy_server.Report.{Platform, report}
use policy_server.Handler.{
  Call, ObjectOf, State, stored, fresh_uid, current_time, check_validation, as_report, must_report,
  raise_if,
}

module _ (P : Platform) (S : Storage) (cs : List (Call P)) where
  -- The calls made so far are these.
  pub record Said (s : State P S) : Type 0 where
    pub said : s.calls ≡ cs

  pub stored-Said : {A : Type 0} (m : Exec S.State A) → Keeps Said (stored P S m)
  stored-Said m = record { after = λ s i. record { said = i.said } }

  pub fresh_uid-Said : Keeps Said (fresh_uid P S)
  fresh_uid-Said = record { after = λ s i. record { said = i.said } }

  pub current_time-Said : Keeps Said (current_time P S)
  current_time-Said = record { after = λ s i. record { said = i.said } }

  pub check_validation-Said :
      (answer : Option Error) (mode : Text) → Keeps Said (check_validation P S answer mode)
  unfolding check_validation
  check_validation-Said none mode = search keeps_rules
  check_validation-Said (some e) mode = search keeps_rules

  pub raise_if-Said : (e : Option Error) → Keeps Said (raise_if P S e)
  unfolding raise_if
  raise_if-Said none = search keeps_rules
  raise_if-Said (some e) = search keeps_rules

  pub as_report-Said :
      (message : Text) (o : Option (ObjectOf P)) → Keeps Said (as_report P S message o)
  unfolding as_report
  as_report-Said message (some (report r)) = search keeps_rules
  as_report-Said message none = search keeps_rules
  as_report-Said message (some o) = search keeps_rules

  pub must_report-Said : (o : Option (ObjectOf P)) → Keeps Said (must_report P S o)
  unfolding must_report
  must_report-Said (some (report r)) = search keeps_rules
  must_report-Said none = search keeps_rules
  must_report-Said (some o) = search keeps_rules
