-- ===== src/Polr/Service/Simulates.antt =====
-- The handlers of pkg/api/polr.go keep their promises, over any storage that is a finite map.
use policy_server.Prelude.{
  ◌≡◌, refl, sym, ap, ◌∙◌, subst, inl, false, Option, none, some, List, [], ◌∷◌,
}
use policy_server.Prelude.Texts.{Text, codes}
use policy_server.Result.{not_found, Error, Result, ok, err, pure, ◌>>=◌, or_fail, continue}
use policy_server.Strconv.{ℤ, parse_int}
use policy_server.Storage.{Storage}
use policy_server.Storage.Contract.{Contract}
use policy_server.Report.{Platform, report, unstructured}
use policy_server.Handler.{WriteOptions, is_dry_run, ReportOf, ObjectOf, State}
use policy_server.Polr.{key, default_namespace, update, delete, delete_report, polr_to_obj}
use policy_server.Polr.Reads.{held, get_polr-missing}
use policy_server.Polr.Update.{bumped, update_missing, update_checked-accepted, update_stored-held}
use policy_server.Polr.Delete.{delete_report-held}
use policy_server.Polr.Filing.{HasVersion}
use policy_server.Polr.Service.{
  Request, add, fetch, change, remove, Reports, serve, info_of, handle, answers, promised, IsPlain,
  ArePlain,
}
use policy_server.Polr.Service.Agrees.{Agrees, Simulates, written, default-kept, next_version_reads}
use policy_server.Polr.Service.Handlers.{
  Settles, ConvertsBy, Kept, equal-Kept, not_dry, add-Kept, fetch-Kept,
}

module _ (P : Platform) (S : Storage) (C : Contract S) (settle : ReportOf P → ReportOf P)
    (convert : ReportOf P → P.Unstructured) (options : WriteOptions) (settles : Settles P settle)
    (converts : ConvertsBy P convert) (wet : is_dry_run options ≡ false) where
  delete_report-missing :
      (namespace name : Text) (s : State P S)
      → C.Ready s.store
      → held P S C name namespace s ≡ none
      → delete_report P S (λ r. none) namespace options name s
        ≡ (err (not_found (codes "policyreports") name), s)
  unfolding delete_report ◌>>=◌ or_fail
  delete_report-missing namespace name s ready e =
      rw (get_polr-missing P S C name namespace s ready e) refl

  converted :
      (r : ReportOf P) (d : Text) (s : State P S)
      → P.marshal r ≡ ok d
      → polr_to_obj P S r s ≡ (ok (unstructured (convert r)), s)
  unfolding polr_to_obj ◌>>=◌ pure
  converted r d s m = rw (m, converts r d m) refl

  change-Kept :
      (namespace name : Text) (f : ReportOf P → ReportOf P) (s : State P S) (m : Reports P)
      → IsPlain P S C settle convert (change namespace name f)
      → Simulates P S C s m
      → Kept P S C settle convert options (change namespace name f) s m
  unfolding handle serve update
  change-Kept namespace name f s m (plain, keeps) sim =
      go (held P S C name namespace s) refl (m.reports namespace name) refl
        (sim.agrees namespace name plain)
    where
      go :
          (x : Option Text)
          → held P S C name namespace s ≡ x
          → (y : Option (ReportOf P)) → m.reports namespace name ≡ y
          → Agrees P S C namespace name x y
          → Kept P S C settle convert options (change namespace name f) s m
      go none e none g a =
          equal-Kept P S C settle convert options (change namespace name f) s s m m _ none
            (update_missing P S C (info_of P S C settle convert options f) (λ obj old. none)
              namespace name options s sim.ready e)
            (rw g refl) refl sim
      go (some d) e (some old) g (dec, named, placed, version) =
          let r0 = default_namespace P S namespace (f old) in
          let n = (parse_int old.resource_version).0 in
          let (same_name, same_namespace) = keeps old in
          let (default_name, default_space) =
            default-kept P S C namespace (f old) (same_namespace ∙ placed) in
          let name_is : r0.name ≡ name = default_name ∙ same_name ∙ named in
          let (v, rv) = version in
          let reads : parse_int old.resource_version ≡ (n, none) =
            rv ∙ ap (λ k. (k, none)) (sym (ap (λ (x : ℤ × Option Error). x.0) rv)) in
          let (d', enc, dec', named', placed', same) = settles (bumped P S C r0 n) in
          let there : held P S C r0.name r0.namespace s ≡ some d = rw (name_is, default_space) e in
          let (done, entries) =
            C.update_found (key P.group_version r0.name r0.namespace) d' d
              (parse_int (bumped P S C r0 n).resource_version).0 s.store sim.ready there in
          equal-Kept P S C settle convert options (change namespace name f) s _ m _
            (ok (report (bumped P S C r0 n))) (some (report (bumped P S C r0 n)))
            (update_checked-accepted P S C (info_of P S C settle convert options f)
                (λ obj old. none) namespace name options d old (f old) s sim.ready e dec refl
                (inl refl)
              ∙ not_dry P S C settle convert options settles converts wet _ _ s
              ∙ update_stored-held P S C r0 d d' old n s sim.ready there dec reads enc)
            (rw g refl) refl
            (record {
              ready = C.update-Ready _ _ _ s.store sim.ready;
              same_world = sim.same_world;
              agrees =
                  written P S C namespace name (some d') (some (settle (bumped P S C r0 n))) s _ m
                    plain sim
                    (
                      dec',
                      named' ∙ name_is,
                      placed' ∙ default_space,
                      subst HasVersion (sym same) (next_version_reads P S C old.resource_version),
                    )
                    (λ j. entries j ∙ rw (name_is, default_space) refl);
            })
      go none e (some old) g a = elim a [ ]
      go (some d) e none g a = elim a [ ]

  remove-Kept :
      (namespace name : Text) (s : State P S) (m : Reports P)
      → IsPlain P S C settle convert (remove namespace name)
      → Simulates P S C s m
      → Kept P S C settle convert options (remove namespace name) s m
  unfolding handle serve delete ◌>>=◌ delete_report
  remove-Kept namespace name s m plain sim =
      go (held P S C name namespace s) refl (m.reports namespace name) refl
        (sim.agrees namespace name plain)
    where
      convert_result : Result (ReportOf P) × State P S → Result (ObjectOf P) × State P S
      convert_result x = continue x (polr_to_obj P S)

      go :
          (x : Option Text)
          → held P S C name namespace s ≡ x
          → (y : Option (ReportOf P)) → m.reports namespace name ≡ y
          → Agrees P S C namespace name x y
          → Kept P S C settle convert options (remove namespace name) s m
      go none e none g a =
          equal-Kept P S C settle convert options (remove namespace name) s s m m _ none
            (ap convert_result (delete_report-missing namespace name s sim.ready e)) (rw g refl)
            refl sim
      go (some d) e (some old) g (dec, named, placed, (n, rv)) =
          let (bytes, enc, _, _, _, _) = settles old in
          let (done, entries) =
            C.delete_found (key P.group_version name namespace) d n s.store sim.ready e in
          equal-Kept P S C settle convert options (remove namespace name) s _ m _
            (ok (unstructured (convert old))) (some (unstructured (convert old)))
            (ap convert_result (
                delete_report-held P S C (λ r. none) namespace name options d old n s sim.ready e
                  dec named placed refl wet rv)
              ∙ converted old bytes _ enc)
            (rw g refl) refl
            (record {
              ready = C.delete-Ready _ _ s.store sim.ready;
              same_world = sim.same_world;
              agrees = written P S C namespace name none none s _ m plain sim tt entries;
            })
      go none e (some old) g a = elim a [ ]
      go (some d) e none g a = elim a [ ]

  handle-Kept :
      (q : Request P) (s : State P S) (m : Reports P)
      → IsPlain P S C settle convert q
      → Simulates P S C s m
      → Kept P S C settle convert options q s m
  handle-Kept (add namespace r) =
      add-Kept P S C settle convert options settles converts wet namespace r
  handle-Kept (fetch namespace name) =
      fetch-Kept P S C settle convert options settles converts wet namespace name
  handle-Kept (change namespace name f) = change-Kept namespace name f
  handle-Kept (remove namespace name) = remove-Kept namespace name

  -- A report store answers any sequence of plain requests as a map from namespaces and names to
  -- reports does: Create of a free name puts the report there with version 1, a fresh UID and the
  -- time, Get returns it, Update changes it in place and counts its version, Delete removes it,
  -- and what is refused by one is refused by the other. The requests are no dry runs, pass
  -- validation and keep to slash-free namespaces; a change keeps the name and the namespace. The
  -- storage is any that meets the contract, the store and the map agree at the start, and the
  -- codec gives a report back settled, with its names and its version.
  pub answers-promised :
      (qs : List (Request P)) (s : State P S) (m : Reports P)
      → ArePlain P S C settle convert qs
      → Simulates P S C s m
      → answers P S C settle convert options qs s ≡ promised P S C settle convert options qs m
  answers-promised [] s m plain sim = refl
  answers-promised (q ∷ qs) s m (plain, rest) sim =
      let k = handle-Kept q s m plain sim in
      rw (k.answer) (
        ap (λ xs. (serve P S C settle convert q m).0 ∷ xs)
          (answers-promised qs (handle P S C settle convert options q s).1
            (serve P S C settle convert q m).1 rest k.after))
