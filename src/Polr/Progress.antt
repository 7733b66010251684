-- ===== src/Polr/Progress.antt =====
-- Whatever requests came before, the handlers of pkg/api/polr.go can serve each report that is stored.
use policy_server.Prelude.{◌≡◌, sym, subst, ap, ◌∙◌, arith, inl, false, Option, none, some}
use policy_server.Prelude.Texts.{Text, codes, NoSlash}
use policy_server.Result.{Error, Result, ok, err, not_found}
use policy_server.Strconv.{ℤ, IsInt64, next_int64, sprint, parse_int}
use policy_server.Strconv.RoundTrip.{parse_int-sprint, parse_int-IsInt64, next_int64-IsInt64}
use policy_server.Storage.{Storage}
use policy_server.Storage.Contract.{Contract}
use policy_server.Report.{Platform, report, unstructured}
use policy_server.Handler.{
  WriteOptions, is_dry_run, ReportOf, ObjectOf, State, UpdatedObjectInfo, decode,
}
use policy_server.Polr.{default_namespace, get, update, delete}
use policy_server.Polr.Reads.{held, get-held, get-decoded}
use policy_server.Polr.Delete.{delete_then_get}
use policy_server.Polr.Update.{bumped, update_then_get}
use policy_server.Polr.Filing.{IsFiled}
use policy_server.Polr.Serve.{Reach, Reach-IsFiled, KeepsReports, Sound, KeepsReports-Writes}

-- `json.Marshal` has an encoding for every report.
abbrev pub Encodes : Platform → Type 0
Encodes P = (r : ReportOf P) → (d : Text) × (P.marshal r ≡ ok d)

-- Every encoding of a report is an object.
abbrev pub Converts : Platform → Type 0
Converts P =
    (r : ReportOf P) (d : Text)
    → P.marshal r ≡ ok d
    → (u : P.Unstructured) × (P.to_unstructured d ≡ ok u)

module _ (P : Platform) (S : Storage) (C : Contract S) (keeps : KeepsReports P) {s t : State P S}
    (begun : IsFiled P S C (Sound P) s) (reach : Reach P S s t) (namespace name d : Text)
    (plain : NoSlash namespace) (there : held P S C name namespace t ≡ some d) where
  now : IsFiled P S C (Sound P) t
  now = Reach-IsFiled P S C (Sound P) (KeepsReports-Writes P keeps) begun reach

  default_namespace-kept :
      (r : ReportOf P)
      → r.namespace ≡ namespace
      → ((default_namespace P S namespace r).name ≡ r.name)
        × ((default_namespace P S namespace r).namespace ≡ namespace)
  unfolding default_namespace
  default_namespace-kept r e = ground (arith, e)

  -- If every report has an encoding that decodes to its name, its namespace and its version and
  -- can be converted, and the start state files sound reports, then after any requests whose
  -- objects have slash-free namespaces, a report that is stored under a slash-free namespace can
  -- be got, and `Delete` of it without a dry run, if it passes validation, succeeds, after which
  -- `Get` does not find it.
  pub delete_progress :
      (validate : ReportOf P → Option Error) (options : WriteOptions)
      → Encodes P
      → Converts P
      → ((r : ReportOf P) → decode P d ≡ ok r → validate r ≡ none)
      → is_dry_run options ≡ false
      → (r : ReportOf P) × (u : P.Unstructured) × (get P S namespace name t ≡ (ok r, t))
        × ((delete P S validate namespace options name t).0 ≡ ok (unstructured u))
        × ((get P S namespace name (delete P S validate namespace options name t).1).0
            ≡ err (not_found (codes "policyreports") name))
  delete_progress validate options encodes converts accepts wet =
      let (r, dec, named, placed, (rev, rv)) = now.filed name namespace d plain there in
      let (bytes, m) = encodes r in
      let (u, conv) = converts r bytes m in
      let done =
        delete_then_get P S C validate namespace name options d bytes r u rev t now.ready there dec
          named placed (accepts r dec) wet rv m conv in
      (
        r,
        u,
        get-held P S C namespace name d r t now.ready there dec,
        done.0,
        ap (λ (x : Result (ReportOf P) × State P S). x.0) done.2,
      )

  -- If every report has an encoding that decodes to its name, its namespace and its version, and
  -- the start state files sound reports, then after any requests whose objects have slash-free
  -- namespaces, a report that is stored under a slash-free namespace can be got, and an accepted
  -- `Update` of it, neither forced nor a dry run, that keeps its name and namespace succeeds with
  -- the version after the stored one.
  pub update_progress :
      (info : UpdatedObjectInfo P S) (validate : Option (ObjectOf P) → ReportOf P → Option Error)
      (options : WriteOptions) (change : ReportOf P → ReportOf P)
      → Encodes P
      → ((old : ReportOf P) → info (some old) ≡ (some (report (change old)), none))
      → ((old : ReportOf P)
          → ((change old).name ≡ old.name) × ((change old).namespace ≡ old.namespace))
      → ((obj : Option (ObjectOf P)) (old : ReportOf P) → validate obj old ≡ none)
      → is_dry_run options ≡ false
      → (old : ReportOf P) × (n : ℤ) × (get P S namespace name t ≡ (ok old, t))
        × (parse_int old.resource_version ≡ (n, none))
        × ((update P S info validate namespace name false options t).0
            ≡ ok (report (bumped P S C (default_namespace P S namespace (change old)) n)))
  update_progress info validate options change encodes changes same accepts wet =
      let (old, dec, named, placed, (n, rv)) = now.filed name namespace d plain there in
      let u0 : ReportOf P = default_namespace P S namespace (change old) in
      let (d2, m) = encodes (bumped P S C u0 n) in
      let (back, dec', _, _, _) = keeps (bumped P S C u0 n) d2 m in
      let (same_name, same_namespace) = same old in
      let (keeps_name, keeps_namespace) =
        default_namespace-kept (change old) (same_namespace ∙ placed) in
      let there' : held P S C u0.name u0.namespace t ≡ some d =
        rw (keeps_name, keeps_namespace, same_name, named) there in
      let done =
        update_then_get P S C info validate namespace name options d d d2 old (change old) old back
          n t now.ready there dec (changes old) (inl (accepts _ _)) wet there' dec rv m dec' in
      (old, n, get-held P S C namespace name d old t now.ready there dec, rv, done.0)

module _ (P : Platform) (S : Storage) (C : Contract S) (keeps : KeepsReports P) where
  -- If the encoder keeps names, namespaces and versions and every encoding decodes, and the start
  -- state files sound reports, then after any requests whose objects have slash-free namespaces, a
  -- report that `Get` returns for a slash-free namespace has a resource version that parses to an
  -- int64, and the version that an update would give it is an int64 that reads back.
  pub version_bounds :
      (s t : State P S) (namespace name : Text) (r : ReportOf P)
      → IsFiled P S C (Sound P) s
      → Reach P S s t
      → NoSlash namespace
      → (get P S namespace name t).0 ≡ ok r
      → (n : ℤ) × (parse_int r.resource_version ≡ (n, none))
        × IsInt64 n
        × IsInt64 (next_int64 n)
        × (parse_int (sprint (next_int64 n)) ≡ (next_int64 n, none))
  version_bounds s t namespace name r begun reach plain got =
      let now = Reach-IsFiled P S C (Sound P) (KeepsReports-Writes P keeps) begun reach in
      let (d, h, dec) = get-decoded P S C namespace name r t now.ready got in
      let (r', dec', _, _, (n, rv)) = now.filed name namespace d plain h in
      let same : r' ≡ r = ok_injective (sym dec' ∙ dec) in
      let fits : IsInt64 n =
        subst IsInt64 (ap (λ (x : ℤ × Option Error). x.0) rv)
          (parse_int-IsInt64 r'.resource_version) in
      (
        n,
        subst (λ (x : ReportOf P). parse_int x.resource_version ≡ (n, none)) same rv,
        fits,
        next_int64-IsInt64 n fits,
        parse_int-sprint (next_int64 n) (next_int64-IsInt64 n fits),
      )
    where
      ok_injective : {a b : ReportOf P} → ok a ≡ ok b → a ≡ b
      ok_injective e = cc
