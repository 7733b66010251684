-- ===== src/Polr/Service.antt =====
-- The abstract specification of pkg/api/polr.go: a report store is a map from namespaces and names to reports, which
-- counts versions. Keys, bytes, errors and events are forgotten. `settle` is what a report is once it was encoded and
-- decoded: JSON rounds a time to the second, for one.
pub mod Agrees
pub mod Handlers
pub mod Simulates
use policy_server.Prelude.{
  Bool, false, ◌&&◌, Option, none, some, List, [], ◌∷◌, if◌then◌else◌, ◌≡◌, refl,
}
use policy_server.Prelude.Texts.{Text, text_eq, NoSlash}
use policy_server.Result.{Error, Result, ok, err, panicked, pure, ◌>>=◌}
use policy_server.Strconv.{parse_int}
use policy_server.Storage.{Storage}
use policy_server.Storage.Contract.{Contract}
use policy_server.Report.{Platform, report, unstructured}
use policy_server.Handler.{WriteOptions, ReportOf, ObjectOf, State, Handler, UpdatedObjectInfo}
use policy_server.Polr.{default_namespace, create, update, delete, get}
use policy_server.Polr.Create.{stamped, after_stamp}
use policy_server.Polr.Update.{bumped}

module _ (P : Platform) where
  -- Requests that pass validation and are no dry runs. A change is made from the stored report.
  pub data Request : Type 0 where
    add : Text → ReportOf P → Request
    fetch : Text → Text → Request
    change : Text → Text → (ReportOf P → ReportOf P) → Request
    remove : Text → Text → Request

  -- The reports by namespace and name, and the outside world, which gives UIDs and times.
  pub record Reports : Type 0 where
    pub reports : Text → Text → Option (ReportOf P)
    pub outside : P.World

  abbrev pub with_report :
      Text
      → Text
      → Option (ReportOf P)
      → (Text → Text → Option (ReportOf P))
      → Text
      → Text
      → Option (ReportOf P)
  with_report namespace name v m namespace' name' =
      if text_eq namespace namespace' && text_eq name name' then v else m namespace' name'

module _ (P : Platform) (S : Storage) (C : Contract S) (settle : ReportOf P → ReportOf P)
    (convert : ReportOf P → P.Unstructured) where
  -- The answer, none where the request is refused, and the new reports, from what is there for the request.
  abbrev added_to : ReportOf P → Option (ReportOf P) → Reports P → Option (ObjectOf P) × Reports P
  added_to r none m =
      let r1 = stamped P S C r m.outside in
      (
        some (report r1),
        record {
          reports = with_report P r.namespace r.name (some (settle r1)) m.reports;
          outside = after_stamp P S C m.outside;
        },
      )
  added_to r (some old) m = (none, record m { outside = after_stamp P S C m.outside })

  abbrev changed_at :
      Text
      → Text
      → (ReportOf P → ReportOf P)
      → Option (ReportOf P)
      → Reports P
      → Option (ObjectOf P) × Reports P
  changed_at namespace name f none m = (none, m)
  changed_at namespace name f (some old) m =
      let r1 =
        bumped P S C (default_namespace P S namespace (f old)) (parse_int old.resource_version).0 in
      (
        some (report r1),
        record m { reports = with_report P namespace name (some (settle r1)) m.reports },
      )

  abbrev removed_from :
      Text → Text → Option (ReportOf P) → Reports P → Option (ObjectOf P) × Reports P
  removed_from namespace name none m = (none, m)
  removed_from namespace name (some old) m = (
    some (unstructured (convert old)),
    record m { reports = with_report P namespace name none m.reports },
  )

  abbrev fetched : Option (ReportOf P) → Option (ObjectOf P)
  fetched none = none
  fetched (some r) = some (report r)

  -- What the service promises for one request.
  unfoldable pub serve : Request P → Reports P → Option (ObjectOf P) × Reports P
  serve (add namespace r) m =
      let r0 = default_namespace P S namespace r in added_to r0 (m.reports r0.namespace r0.name) m
  serve (fetch namespace name) m = (fetched (m.reports namespace name), m)
  serve (change namespace name f) m = changed_at namespace name f (m.reports namespace name) m
  serve (remove namespace name) m = removed_from namespace name (m.reports namespace name) m

  module _ (options : WriteOptions) where
    abbrev pub info_of : (ReportOf P → ReportOf P) → UpdatedObjectInfo P S
    info_of f none = (none, none)
    info_of f (some old) = (some (report (f old)), none)

    -- The handler that the request calls.
    unfoldable pub handle : Request P → Handler P S (ObjectOf P)
    handle (add namespace r) = create P S (λ obj. none) namespace (report r) options
    handle (fetch namespace name) = do r ← get P S namespace name; pure (report r)
    handle (change namespace name f) =
        update P S (info_of f) (λ obj old. none) namespace name false options
    handle (remove namespace name) = delete P S (λ r. none) namespace options name

    abbrev pub reply : Result (ObjectOf P) → Option (ObjectOf P)
    reply (ok obj) = some obj
    reply _ = none

    -- The answers to a sequence of requests, from the handlers and from the specification.
    abbrev pub answers : List (Request P) → State P S → List (Option (ObjectOf P))
    answers [] s = []
    answers (q ∷ qs) s = let (x, t) = handle q s in reply x ∷ answers qs t

    abbrev pub promised : List (Request P) → Reports P → List (Option (ObjectOf P))
    promised [] m = []
    promised (q ∷ qs) m = let (x, n) = serve q m in x ∷ promised qs n

  -- The request has slash-free namespaces, and a change keeps the name and the namespace.
  abbrev pub IsPlain : Request P → Type 0
  IsPlain (add namespace r) = NoSlash (default_namespace P S namespace r).namespace
  IsPlain (fetch namespace name) = NoSlash namespace
  IsPlain (change namespace name f) =
      NoSlash namespace
      × ((old : ReportOf P) → ((f old).name ≡ old.name) × ((f old).namespace ≡ old.namespace))
  IsPlain (remove namespace name) = NoSlash namespace

  abbrev pub ArePlain : List (Request P) → Type 0
  ArePlain [] = Unit
  ArePlain (q ∷ qs) = IsPlain q × ArePlain qs
