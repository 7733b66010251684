-- ===== src/Polr/Service/Handlers.antt =====
-- What Create and Get of pkg/api/polr.go answer is what they promise, and the reports agree after it.
use policy_server.Prelude.{
  ◌≡◌, refl, sym, ap, ◌∙◌, subst, inl, false, Option, none, some, if◌then◌else◌,
}
use policy_server.Prelude.Texts.{Text}
use policy_server.Result.{Result, ok, pure, ◌>>=◌, continue}
use policy_server.Storage.{Storage}
use policy_server.Storage.Contract.{Contract}
use policy_server.Report.{Platform, report}
use policy_server.Handler.{WriteOptions, is_dry_run, ReportOf, ObjectOf, State, decode, Handler}
use policy_server.Polr.{key, default_namespace}
use policy_server.Polr.Reads.{held, get-held, get-missing}
use policy_server.Polr.Create.{
  stamped, after_stamp, create-accepted, create_stored-new, create_stored-present,
}
use policy_server.Polr.Filing.{HasVersion}
use policy_server.Polr.Service.{Request, add, fetch, Reports, serve, handle, reply, IsPlain}
use policy_server.Polr.Service.Agrees.{Agrees, Simulates, written, version_one}

-- Every report encodes, and its encoding decodes to the settled report, which keeps its names and its version.
abbrev pub Settles : (P : Platform) → (ReportOf P → ReportOf P) → Type 0
Settles P settle =
    (r : ReportOf P)
    → (d : Text) × (P.marshal r ≡ ok d)
      × (decode P d ≡ ok (settle r))
      × ((settle r).name ≡ r.name)
      × ((settle r).namespace ≡ r.namespace)
      × ((settle r).resource_version ≡ r.resource_version)

-- Every encoding of a report becomes the object that `convert` gives.
abbrev pub ConvertsBy : (P : Platform) → (ReportOf P → P.Unstructured) → Type 0
ConvertsBy P convert =
    (r : ReportOf P) (d : Text) → P.marshal r ≡ ok d → P.to_unstructured d ≡ ok (convert r)

module _ (P : Platform) (S : Storage) (C : Contract S) (settle : ReportOf P → ReportOf P)
    (convert : ReportOf P → P.Unstructured) (options : WriteOptions) where
  -- The answer is the promised one, and the two sides agree after it.
  pub record Kept (q : Request P) (s : State P S) (m : Reports P) : Type 0 where
    pub answer :
        reply P S C settle convert options (handle P S C settle convert options q s).0
        ≡ (serve P S C settle convert q m).0
    pub after :
        Simulates P S C
          (handle P S C settle convert options q s).1
          (serve P S C settle convert q m).1

  pub equal-Kept :
      (q : Request P) (s t : State P S) (m n : Reports P) (x : Result (ObjectOf P))
      (v : Option (ObjectOf P))
      → handle P S C settle convert options q s ≡ (x, t)
      → serve P S C settle convert q m ≡ (v, n)
      → reply P S C settle convert options x ≡ v
      → Simulates P S C t n
      → Kept q s m
  equal-Kept q s t m n x v e f same sim = record { answer = rw (e, f) same; after = rw (e, f) sim }

module _ (P : Platform) (S : Storage) (C : Contract S) (settle : ReportOf P → ReportOf P)
    (convert : ReportOf P → P.Unstructured) (options : WriteOptions) (settles : Settles P settle)
    (converts : ConvertsBy P convert) (wet : is_dry_run options ≡ false) where
  pub not_dry :
      (f g : Handler P S (ObjectOf P)) (s : State P S)
      → (if is_dry_run options then f else g) s ≡ g s
  not_dry f g s = rw wet refl

  pub add-Kept :
      (namespace : Text) (r : ReportOf P) (s : State P S) (m : Reports P)
      → IsPlain P S C settle convert (add namespace r)
      → Simulates P S C s m
      → Kept P S C settle convert options (add namespace r) s m
  unfolding handle serve
  add-Kept namespace r s m plain sim =
      go (held P S C r0.name r0.namespace s) refl (m.reports r0.namespace r0.name) refl
        (sim.agrees r0.namespace r0.name plain)
    where
      r0 : ReportOf P
      r0 = default_namespace P S namespace r

      go :
          (x : Option Text)
          → held P S C r0.name r0.namespace s ≡ x
          → (y : Option (ReportOf P)) → m.reports r0.namespace r0.name ≡ y
          → Agrees P S C r0.namespace r0.name x y
          → Kept P S C settle convert options (add namespace r) s m
      go none e none f a =
          let (d, enc, dec, named, placed, same) = settles (stamped P S C r0 s.world) in
          let accepted = create-accepted P S C (λ obj. none) namespace options r s (inl refl) in
          let (done, entries) =
            C.create_new (key P.group_version r0.name r0.namespace) d s.store sim.ready e in
          equal-Kept P S C settle convert options (add namespace r) s _ m _
            (ok (report (stamped P S C r0 s.world))) (some (report (stamped P S C r0 s.world)))
            (accepted ∙ not_dry _ _ s ∙ create_stored-new P S C r0 d s sim.ready enc e)
            (rw (f, ← sim.same_world) refl) refl
            (record {
              ready = C.create-Ready _ d s.store sim.ready;
              same_world = refl;
              agrees =
                  written P S C r0.namespace r0.name (some d)
                    (some (settle (stamped P S C r0 s.world))) s _ m plain sim
                    (dec, named, placed, subst HasVersion (sym same) (version_one P S C)) entries;
            })
      go (some d) e (some old) f a =
          let (d', enc, _, _, _, _) = settles (stamped P S C r0 s.world) in
          let accepted = create-accepted P S C (λ obj. none) namespace options r s (inl refl) in
          equal-Kept P S C settle convert options (add namespace r) s _ m _ _ none
            (accepted ∙ not_dry _ _ s ∙ create_stored-present P S C r0 d' d s sim.ready enc e)
            (rw f refl) refl
            (record {
              ready = sim.ready;
              same_world = ap (after_stamp P S C) sim.same_world;
              agrees = sim.agrees;
            })
      go none e (some old) f a = elim a [ ]
      go (some d) e none f a = elim a [ ]

  pub fetch-Kept :
      (namespace name : Text) (s : State P S) (m : Reports P)
      → IsPlain P S C settle convert (fetch namespace name)
      → Simulates P S C s m
      → Kept P S C settle convert options (fetch namespace name) s m
  unfolding handle serve pure ◌>>=◌
  fetch-Kept namespace name s m plain sim =
      go (held P S C name namespace s) refl (m.reports namespace name) refl
        (sim.agrees namespace name plain)
    where
      as_object : Result (ReportOf P) × State P S → Result (ObjectOf P) × State P S
      as_object x = continue x (λ r. pure (report r))

      go :
          (x : Option Text)
          → held P S C name namespace s ≡ x
          → (y : Option (ReportOf P)) → m.reports namespace name ≡ y
          → Agrees P S C namespace name x y
          → Kept P S C settle convert options (fetch namespace name) s m
      go none e none f a =
          equal-Kept P S C settle convert options (fetch namespace name) s s m m _ none
            (ap as_object (get-missing P S C namespace name s sim.ready e)) (rw f refl) refl sim
      go (some d) e (some old) f (dec, _, _, _) =
          equal-Kept P S C settle convert options (fetch namespace name) s s m m (ok (report old))
            (some (report old))
            (ap as_object (get-held P S C namespace name d old s sim.ready e dec)) (rw f refl) refl
            sim
      go none e (some old) f a = elim a [ ]
      go (some d) e none f a = elim a [ ]
