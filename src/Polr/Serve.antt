-- ===== src/Polr/Serve.antt =====
-- Requests to a report store, one after the other: the states that the handlers of pkg/api/polr.go can
-- reach, whatever the requests and their outcomes.
use policy_server.Prelude.{◌≡◌, Bool, Option, some}
use policy_server.Prelude.Texts.{Text, NoSlash}
use policy_server.Result.{Error, ok}
use policy_server.Storage.{Storage}
use policy_server.Storage.Contract.{Contract}
use policy_server.Report.{Platform}
use policy_server.Handler.{
  WriteOptions, ListOptions, ReportOf, ObjectOf, State, UpdatedObjectInfo, decode,
}
use policy_server.Polr.{create, update, delete, delete_collection, list, get}
use policy_server.Polr.Reads.{get-decoded}
use policy_server.Polr.Filing.{HasVersion, Writes, IsPlaced, IsFiled}
use policy_server.Polr.Filing.Handlers.{
  create-IsFiled, update-IsFiled, delete-IsFiled, delete_collection-IsFiled, list-IsFiled,
  get-IsFiled,
}

module _ (P : Platform) (S : Storage) where
  -- The states after any requests from the state `s`.
  pub data Reach (s : State P S) : State P S → Type 0 where
    start : Reach s s
    created :
        {t : State P S} (validate : ObjectOf P → Option Error) (namespace : Text) (obj : ObjectOf P)
        (options : WriteOptions)
        → IsPlaced P S namespace (some obj)
        → Reach s t
        → Reach s (create P S validate namespace obj options t).1
    updated :
        {t : State P S} (info : UpdatedObjectInfo P S)
        (validate : Option (ObjectOf P) → ReportOf P → Option Error) (namespace name : Text)
        (force : Bool) (options : WriteOptions)
        → ((old : Option (ReportOf P)) → IsPlaced P S namespace (info old).0)
        → Reach s t
        → Reach s (update P S info validate namespace name force options t).1
    deleted :
        {t : State P S} (validate : ReportOf P → Option Error) (namespace name : Text)
        (options : WriteOptions)
        → Reach s t
        → Reach s (delete P S validate namespace options name t).1
    cleared :
        {t : State P S} (validate : ReportOf P → Option Error) (namespace : Text)
        (options : WriteOptions) (list_options : Option (ListOptions P))
        → Reach s t
        → Reach s (delete_collection P S validate namespace options list_options t).1
    listed :
        {t : State P S} (namespace : Text) (options : Option (ListOptions P))
        → Reach s t
        → Reach s (list P S namespace options t).1
    read :
        {t : State P S} (namespace name : Text) → Reach s t → Reach s (get P S namespace name t).1

module _ (P : Platform) (S : Storage) (C : Contract S) (Q : Text → Text → Text → Type 0)
    (writes : Writes P Q) where
  pub Reach-IsFiled : {s t : State P S} → IsFiled P S C Q s → Reach P S s t → IsFiled P S C Q t
  Reach-IsFiled i start = i
  Reach-IsFiled i (created validate namespace obj options placed r) =
      create-IsFiled P S C Q writes validate namespace obj options _ placed (Reach-IsFiled i r)
  Reach-IsFiled i (updated info validate namespace name force options placed r) =
      update-IsFiled P S C Q writes info validate namespace name force options _ placed
        (Reach-IsFiled i r)
  Reach-IsFiled i (deleted validate namespace name options r) =
      delete-IsFiled P S C Q validate namespace options name _ (Reach-IsFiled i r)
  Reach-IsFiled i (cleared validate namespace options list_options r) =
      delete_collection-IsFiled P S C Q validate namespace options list_options _
        (Reach-IsFiled i r)
  Reach-IsFiled i (listed namespace options r) =
      list-IsFiled P S C Q namespace options _ (Reach-IsFiled i r)
  Reach-IsFiled i (read namespace name r) = get-IsFiled P S C Q namespace name _ (Reach-IsFiled i r)

-- What the JSON of a report keeps: its name and its namespace.
abbrev pub KeepsNames : Platform → Type 0
KeepsNames P =
    (r back : ReportOf P) (d : Text)
    → P.marshal r ≡ ok d
    → decode P d ≡ ok back
    → (back.name ≡ r.name) × (back.namespace ≡ r.namespace)

-- What the bytes decode to, if they decode, has the name and the namespace.
abbrev pub Named : Platform → Text → Text → Text → Type 0
Named P name namespace d =
    (r : ReportOf P) → decode P d ≡ ok r → (r.name ≡ name) × (r.namespace ≡ namespace)

module _ (P : Platform) (S : Storage) (C : Contract S) (names : KeepsNames P) where
  -- If the encoder keeps names and namespaces, the start state files its reports under their own
  -- names and namespaces, and the objects of the requests have slash-free namespaces, then after
  -- any requests, valid or not, a report that `Get` returns for a slash-free namespace has the
  -- name and the namespace that were asked for.
  pub get_returns-Named :
      (namespace name : Text) (r : ReportOf P) (s t : State P S)
      → IsFiled P S C (Named P) s
      → Reach P S s t
      → NoSlash namespace
      → (get P S namespace name t).0 ≡ ok r
      → (r.name ≡ name) × (r.namespace ≡ namespace)
  get_returns-Named namespace name r s t i reach plain got =
      let filed =
        Reach-IsFiled P S C (Named P) (λ r val v m back dec. names r back val m dec) i reach in
      let (d, h, dec) = get-decoded P S C namespace name r t filed.ready got in
      filed.filed name namespace d plain h r dec

-- What the JSON of a report keeps, of the fields that the handlers rely on; and every encoding decodes.
abbrev pub KeepsReports : Platform → Type 0
KeepsReports P =
    (r : ReportOf P) (d : Text)
    → P.marshal r ≡ ok d
    → (back : ReportOf P) × (decode P d ≡ ok back)
      × (back.name ≡ r.name)
      × (back.namespace ≡ r.namespace)
      × (back.resource_version ≡ r.resource_version)

-- The bytes decode to a report of the name and the namespace, whose resource version parses.
abbrev pub Sound : Platform → Text → Text → Text → Type 0
Sound P name namespace d =
    (r : ReportOf P) × (decode P d ≡ ok r)
    × (r.name ≡ name)
    × (r.namespace ≡ namespace)
    × HasVersion r.resource_version

pub KeepsReports-Writes : (P : Platform) → KeepsReports P → Writes P (Sound P)
KeepsReports-Writes P keeps r val v m =
    let (back, dec, n, ns, rv) = keeps r val m in (back, dec, n, ns, rw rv v)
