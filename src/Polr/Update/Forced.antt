-- ===== src/Polr/Update/Forced.antt =====
-- `Update` with `forceAllowCreate` of pkg/api/polr.go.
use policy_server.Prelude.{◌≡◌, refl, true, Option, none, some, [], ◌∷◌, ◌++◌, arith}
use policy_server.Prelude.Texts.{Text, codes, text_eq_refl}
use policy_server.Result.{Error, ok, ◌>>=◌}
use policy_server.Strconv.{parse_int}
use policy_server.Storage.{Storage}
use policy_server.Storage.Contract.{Contract}
use policy_server.Report.{Platform, report}
use policy_server.Handler.{
  WriteOptions, added, ReportOf, ObjectOf, action, State, must_report, decode, UpdatedObjectInfo,
}
use policy_server.Polr.{key, next_version, update_polr, update_forced, update}
use policy_server.Polr.Reads.{held, get_polr-held, get_polr-missing}

module _ (P : Platform) (S : Storage) (C : Contract S) (updated : UpdatedObjectInfo P S)
    (validate : Option (ObjectOf P) → ReportOf P → Option Error) (namespace name : Text)
    (options : WriteOptions) where
  -- Over a ready storage, `Update` with `forceAllowCreate` of a report that is not stored, to an
  -- object that is a report whose key is not stored either and that encodes, returns it with
  -- resource version 1 and sends an Added event, though the storage is as before: its error is
  -- dropped.
  pub update_forced_missing :
      (u : ReportOf P) (d : Text) (s : State P S)
      → let u1 = record u { resource_version = codes "1" } in
        C.Ready s.store
        → held P S C name namespace s ≡ none
        → (updated none).0 ≡ some (report u)
        → held P S C u.name u.namespace s ≡ none
        → P.marshal u1 ≡ ok d
        → update P S updated validate namespace name true options s
          ≡ (ok (report u1), record s { calls = s.calls ++ (action added (report u1) ∷ []) })
  unfolding update update_forced must_report update_polr next_version ◌>>=◌
  update_forced_missing u d s ready h up free m =
      rw (get_polr-missing P S C name namespace s ready h) (
        rw up (
          rw m (
            rw (C.update_missing (key P.group_version u.name u.namespace) d _ s.store ready free)
              refl)))

  -- Over a ready storage, `Update` with `forceAllowCreate` of a stored report that decodes, to a
  -- report with a stored key that encodes, overwrites what is stored there with resource version
  -- 1, in a dry run too, and without any validation.
  pub update_forced_stored :
      (d d1 d2 : Text) (old u : ReportOf P) (s : State P S)
      → let u1 = record u { resource_version = codes "1" } in
        let t = (update P S updated validate namespace name true options s).1 in
        C.Ready s.store
        → held P S C name namespace s ≡ some d
        → decode P d ≡ ok old
        → (updated (some old)).0 ≡ some (report u)
        → held P S C u.name u.namespace s ≡ some d1
        → P.marshal u1 ≡ ok d2
        → ((update P S updated validate namespace name true options s).0 ≡ ok (report u1))
          × (held P S C u.name u.namespace t ≡ some d2)
          × (t.calls ≡ s.calls ++ (action added (report u1) ∷ []))
  unfolding update update_forced must_report update_polr next_version ◌>>=◌
  update_forced_stored d d1 d2 old u s ready h dec up h1 m =
      let k = key P.group_version u.name u.namespace in
      let (done, kept) = C.update_found k d2 d1 (parse_int (codes "1")).0 s.store ready h1 in
      rw (get_polr-held P S C name namespace d s ready h)
        (rw dec (rw up (rw m (ground arith, ground (arith, kept k, text_eq_refl k), ground arith))))
