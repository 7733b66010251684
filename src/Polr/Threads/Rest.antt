-- ===== src/Polr/Threads/Rest.antt =====
-- The handlers of pkg/api/polr.go as what their threads' steps do one after the other.
use policy_server.Prelude.{
  ◌≡◌, refl, sym, ◌∙◌, inl, inr, Bool, true, false, some, if◌then◌else◌, arith,
}
use policy_server.Prelude.Texts.{codes}
use policy_server.Result.{not_found, attempt, pure, or_fail, ◌>>=◌, ◌>>◌}
use policy_server.Result.Laws.{bind_assoc, bind_cong, bind_pure}
use policy_server.Storage.{Storage}
use policy_server.Report.{Platform, report}
use policy_server.Handler.{
  deleted, must_report, is_dry_run, added, ReportOf, ObjectOf, State, Handler, broadcast,
  check_validation, as_report, raise_if,
}
use policy_server.Polr.{
  cannot_delete, polr_to_obj, delete, delete_report, update_forced, delete_polr, invalid_resource,
  get_polr, create_polr, next_version, update_polr, default_namespace, cannot_create, create_stored,
  create, update_stored, update_checked, update,
}
use policy_server.Polr.Threads.{
  force_step, force_write, delete_step, remove_step, DeleteRequest, CreateRequest, UpdateRequest,
  Outcome, create_step, update_step, version_step, write_version, write_step,
}

module _ (P : Platform) (S : Storage) where
  -- What is left of a handler where it goes on with a report.
  abbrev pub rest : (ReportOf P → Handler P S (ObjectOf P)) → Outcome P S → Handler P S (ObjectOf P)
  rest f (inl r) = f r
  rest f (inr obj) = pure obj

  abbrev pub tell : ReportOf P → Handler P S (ObjectOf P)
  tell r = broadcast P S added (report r) >> pure (report r)

  -- The rest of `Update` from its storage call.
  abbrev pub write_rest : ReportOf P → Handler P S (ObjectOf P)
  write_rest r = write_step P S r >>= rest tell

  abbrev pub version_rest : ReportOf P → Handler P S (ObjectOf P)
  version_rest r = version_step P S r >>= rest write_rest

  pub version_rest_lem : (r : ReportOf P) (s : State P S) → version_rest r s ≡ update_stored P S r s
  unfolding version_step write_step write_version update_stored update_polr next_version pure ◌>>=◌
  version_rest_lem r s = ground arith

  pub create_rest_lem :
      (q : CreateRequest P S) (s : State P S)
      → (create_step P S q >>= rest tell) s
        ≡ create P S q.validate_new q.create_namespace q.new_object q.create_options s
  unfolding create_step create create_stored pure ◌>>=◌
  create_rest_lem q s =
      bind_assoc {B = Outcome P S}
        (check_validation P S (q.validate_new q.new_object) q.create_options.field_validation) _ _ s
      ∙ bind_cong
          (check_validation P S (q.validate_new q.new_object) q.create_options.field_validation) _ _
          s
          λ _ t.
            bind_assoc {B = Outcome P S}
              (as_report P S (codes "failed to validate policy report") (some q.new_object)) _ _ t
            ∙ bind_cong
                (as_report P S (codes "failed to validate policy report") (some q.new_object)) _ _ t
                λ polr u.
                  split (is_dry_run q.create_options)
                    (default_namespace P S q.create_namespace polr) u
    where
      split :
          (dry : Bool) (r : ReportOf P) (u : State P S)
          → ((if dry
                  then pure (inr (report r))
                  else (or_fail (cannot_create P S) (create_polr P S r) >>= λ r'. pure (inl r')))
                >>= rest tell)
              u
            ≡ (if dry then pure (report r) else create_stored P S r) u
      split true r u = refl
      split false r u =
          bind_assoc {B = Outcome P S} (or_fail (cannot_create P S) (create_polr P S r)) _ _ u

  pub update_rest_lem :
      (q : UpdateRequest P S) (s : State P S)
      → (update_step P S q >>= rest version_rest) s
        ≡ update P S q.info q.validate_change q.update_namespace q.update_name false
            q.update_options s
  unfolding update_step update update_checked pure ◌>>=◌
  update_rest_lem q s =
      bind_assoc {B = Outcome P S} (get_polr P S q.update_name q.update_namespace) _ _ s
      ∙ bind_cong (get_polr P S q.update_name q.update_namespace) _ _ s λ old t.
        bind_assoc {B = Outcome P S} (raise_if P S (q.info (some old)).1) _ _ t
        ∙ bind_cong (raise_if P S (q.info (some old)).1) _ _ t λ _ t1.
          bind_assoc {B = Outcome P S}
            (check_validation P S (q.validate_change (q.info (some old)).0 old)
              q.update_options.field_validation)
            _ _ t1
          ∙ bind_cong
              (check_validation P S (q.validate_change (q.info (some old)).0 old)
                q.update_options.field_validation)
              _ _ t1
              λ _ t2.
                bind_assoc {B = Outcome P S}
                  (as_report P S (codes "failed to validate policy report") (q.info (some old)).0) _
                  _ t2
                ∙ bind_cong
                    (as_report P S (codes "failed to validate policy report") (q.info (some old)).0)
                    _ _ t2
                    λ polr u.
                      split (is_dry_run q.update_options)
                        (default_namespace P S q.update_namespace polr) u
    where
      split :
          (dry : Bool) (r : ReportOf P) (u : State P S)
          → ((if dry then pure (inr (report r)) else pure (inl r)) >>= rest version_rest) u
            ≡ (if dry then pure (report r) else update_stored P S r) u
      split true r u = refl
      split false r u = version_rest_lem r u

  -- `Update` with `forceAllowCreate` from its storage call.
  abbrev pub force_rest : ReportOf P → Handler P S (ObjectOf P)
  force_rest r = force_write P S r >>= rest tell

  pub force_rest_lem :
      (q : UpdateRequest P S) (s : State P S)
      → (force_step P S q >>= rest force_rest) s
        ≡ update P S q.info q.validate_change q.update_namespace q.update_name true q.update_options
            s
  unfolding force_step force_write update update_forced pure ◌>>=◌
  force_rest_lem q s =
      bind_assoc {B = Outcome P S} (attempt (get_polr P S q.update_name q.update_namespace)) _ _ s
      ∙ bind_cong (attempt (get_polr P S q.update_name q.update_namespace)) _ _ s λ old t.
        bind_assoc {B = Outcome P S} (must_report P S (q.info old).0) _ _ t
        ∙ bind_cong (must_report P S (q.info old).0) _ _ t
            λ polr u. bind_assoc {B = Outcome P S} (attempt (update_polr P S polr true)) _ _ u

  abbrev pub tell_removed : ReportOf P → Handler P S (ObjectOf P)
  tell_removed r = broadcast P S deleted (report r) >> polr_to_obj P S r

  -- `Delete` from its storage call.
  abbrev pub remove_rest : ReportOf P → Handler P S (ObjectOf P)
  remove_rest r = remove_step P S r >>= rest tell_removed

  pub delete_rest_lem :
      (q : DeleteRequest P S) (s : State P S)
      → (delete_step P S q >>= rest remove_rest) s
        ≡ delete P S q.validate_removal q.delete_namespace q.delete_options q.delete_name s
  unfolding delete_step remove_step delete delete_report pure ◌>>=◌
  delete_rest_lem q s =
      bind_assoc {B = Outcome P S} got _ _ s
      ∙ bind_cong got _ _ s (λ polr t.
        bind_assoc {B = Outcome P S} (passed polr) _ _ t
        ∙ bind_cong (passed polr) _ _ t (λ _ u. split (is_dry_run q.delete_options) polr u)
        ∙ sym (bind_assoc {B = ReportOf P} (passed polr) _ _ t))
      ∙ sym (bind_assoc {B = ReportOf P} got _ _ s)
    where
      got : Handler P S (ReportOf P)
      got =
          or_fail (λ _. not_found (codes "policyreports") q.delete_name)
            (get_polr P S q.delete_name q.delete_namespace)

      passed : ReportOf P → Handler P S (Unit {0})
      passed polr = raise_if P S (invalid_resource P S (q.validate_removal polr))

      removed : ReportOf P → Handler P S (Unit {0})
      removed polr = or_fail (cannot_delete P S) (delete_polr P S polr)

      split :
          (dry : Bool) (polr : ReportOf P) (u : State P S)
          → ((if dry then (polr_to_obj P S polr >>= λ obj. pure (inr obj)) else pure (inl polr))
                >>= rest remove_rest)
              u
            ≡ ((if dry
                    then pure polr
                    else (removed polr >>= λ _.
                        broadcast P S deleted (report polr) >>= λ _. pure polr))
                  >>= polr_to_obj P S)
                u
      split true polr u =
          bind_assoc {B = Outcome P S} (polr_to_obj P S polr) _ _ u
          ∙ bind_pure (polr_to_obj P S polr) u
      split false polr u =
          bind_assoc {B = Outcome P S} (removed polr) _ _ u
          ∙ sym (bind_assoc {B = ReportOf P} (removed polr) _ _ u)
