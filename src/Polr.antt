-- ===== src/Polr.antt =====
-- pkg/api/polr.go: the handlers of namespaced policy reports, over any storage.
pub mod Resource
pub mod Keys
pub mod Reads
pub mod Create
pub mod Update
pub mod Delete
pub mod Listing
pub mod Filing
pub mod Serve
pub mod Frame
pub mod Progress
pub mod Threads
pub mod Service
use policy_server.Prelude.{
  Bool, true, false, Option, none, some, List, [], ◌∷◌, ◌++◌, if◌then◌else◌,
}
use policy_server.Prelude.Texts.{Text, codes}
use policy_server.Result.{
  Error, Result, ok, err, not_found, bad_request, wrapped, pure, lift, or_fail, attempt, ◌>>=◌,
  ◌>>◌,
}
use policy_server.Strconv.{ℤ, pos, next_int64, sprint, parse_int}
use policy_server.Storage.{Storage}
use policy_server.Report.{ReportList, report, unstructured, Platform}
use policy_server.Handler.{
  WriteOptions, is_dry_run, added, deleted, ReportOf, ObjectOf, ListOptions, decode, decode_list,
  selector_of, select_loop, State, Handler, stored, broadcast, fresh_uid, current_time,
  check_validation, as_report, must_report, UpdatedObjectInfo, raise_if, watch_broadcaster,
}

-- `key` and `keyForList`, from `SchemeGroupVersion`
unfoldable pub key : Text → Text → Text → Text
key group_version name namespace =
    codes "/apis/"
    ++ (group_version ++ (codes "/namespaces/" ++ (namespace ++ (codes "/policyreports/" ++ name))))

unfoldable pub key_for_list : Text → Text → Text
key_for_list group_version namespace =
    codes "/apis/"
    ++ (group_version ++ (codes "/namespaces/" ++ (namespace ++ codes "/policyreports/")))

-- `strconv.ParseInt` where the caller tests the error.
abbrev pub parsed : ℤ × Option Error → Result ℤ
parsed (n, none) = ok n
parsed (n, some e) = err e

module _ (P : Platform) (S : Storage) where
  -- `PolicyReportStore`
  unfoldable pub policy_report_store : S.State → P.World → State P S
  policy_report_store store world = record { store = store; calls = []; world = world }

  -- `getPolr`
  unfoldable pub get_polr : Text → Text → Handler P S (ReportOf P)
  get_polr name namespace = do
    val ←
        or_fail (wrapped (codes "could not find policy report in store"))
          (stored P S (S.get (key P.group_version name namespace)))
    or_fail (λ _. bad_request (codes "invalid object found")) (lift (decode P val.value_data))

  -- `listPolr`
  unfoldable pub list_polr : Text → Handler P S (ReportList P.Body)
  list_polr namespace = do
    vals ←
        or_fail (wrapped (codes "could not find policy report in store"))
          (stored P S (S.list (key_for_list P.group_version namespace) 0))
    or_fail (λ _. bad_request (codes "invalid object found")) (lift (decode_list P vals))

  -- `createPolr`, with the report as it is stored.
  unfoldable pub create_polr : ReportOf P → Handler P S (ReportOf P)
  create_polr r = do
    uid ← fresh_uid P S
    now ← current_time P S
    let r' : ReportOf P = record r {
      resource_version = sprint (pos 1);
      uid = uid;
      creation_timestamp = now;
    }
    val ← or_fail (wrapped (codes "could not marshal report")) (lift (P.marshal r'))
    stored P S (S.create (key P.group_version r.name r.namespace) val)
    pure r'

  -- The first half of `updatePolr`: the new resource version.
  unfoldable pub next_version : ReportOf P → Bool → Handler P S (ReportOf P)
  next_version r false = do
    old ← or_fail (wrapped (codes "old policy report not found")) (get_polr r.name r.namespace)
    old_rv ←
        or_fail (wrapped (codes "could not parse resource version"))
          (lift (parsed (parse_int old.resource_version)))
    pure (record r { resource_version = sprint (next_int64 old_rv) })
  next_version r true = pure (record r { resource_version = codes "1" })

  -- `updatePolr`, with the report as it is stored.
  unfoldable pub update_polr : ReportOf P → Bool → Handler P S (ReportOf P)
  update_polr r force = do
    r' ← next_version r force
    val ← or_fail (wrapped (codes "could not marshal report")) (lift (P.marshal r'))
    stored P S
        (S.update (key P.group_version r.name r.namespace) (parse_int r'.resource_version).0 val)
    pure r'

  -- `deletePolr`
  unfoldable pub delete_polr : ReportOf P → Handler P S (Unit {0})
  delete_polr r = do
    rev ←
        or_fail (wrapped (codes "could not marshal report's resource version"))
          (lift (parsed (parse_int r.resource_version)))
    stored P S (S.delete (key P.group_version r.name r.namespace) rev)

  -- `polrToObj`
  unfoldable pub polr_to_obj : ReportOf P → Handler P S (ObjectOf P)
  polr_to_obj r = do
    bytes ← lift (P.marshal r)
    unst ← lift (P.to_unstructured bytes)
    pure (unstructured unst)

  -- `List`
  unfoldable pub list : Text → Option (ListOptions P) → Handler P S (ReportList P.Body)
  list namespace options = do
    all ←
        or_fail (λ _. bad_request (codes "failed to list resource policyreport"))
          (list_polr namespace)
    pure (select_loop P (selector_of P options) all all.items [])

  -- `Get`
  unfoldable pub get : Text → Text → Handler P S (ReportOf P)
  get namespace name =
      or_fail (λ _. not_found (codes "policyreports") name) (get_polr name namespace)

  -- `if len(polr.Namespace) == 0 { polr.Namespace = namespace }`
  unfoldable pub default_namespace : Text → ReportOf P → ReportOf P
  default_namespace namespace r = elim r.namespace [
    | [] ↦ record r { namespace = namespace }
    | b ∷ rest ↦ r
  ]

  abbrev pub cannot_create : Error → Error
  cannot_create e = bad_request (codes "cannot create policy report: " ++ P.error_text e)

  -- `Create`, after the dry-run test.
  unfoldable pub create_stored : ReportOf P → Handler P S (ObjectOf P)
  create_stored r = do
    r' ← or_fail cannot_create (create_polr r)
    broadcast P S added (report r')
    pure (report r')

  -- `Create`
  unfoldable pub create :
      (ObjectOf P → Option Error) → Text → ObjectOf P → WriteOptions → Handler P S (ObjectOf P)
  create validate namespace obj options = do
    check_validation P S (validate obj) options.field_validation
    polr ← as_report P S (codes "failed to validate policy report") (some obj)
    let r = default_namespace namespace polr
    if is_dry_run options then pure (report r) else create_stored r

  -- `Update` with `forceAllowCreate`
  unfoldable pub update_forced : UpdatedObjectInfo P S → Text → Text → Handler P S (ObjectOf P)
  update_forced updated namespace name = do
    old ← attempt (get_polr name namespace)
    polr ← must_report P S (updated old).0
    attempt (update_polr polr true)
    let r : ReportOf P = record polr { resource_version = codes "1" }
    broadcast P S added (report r)
    pure (report r)

  -- The last part of `Update`, after the dry-run test.
  unfoldable pub update_stored : ReportOf P → Handler P S (ObjectOf P)
  update_stored r = do
    r' ← or_fail cannot_create (update_polr r false)
    broadcast P S added (report r')
    pure (report r')

  -- `Update` without `forceAllowCreate`
  unfoldable pub update_checked :
      UpdatedObjectInfo P S
      → (Option (ObjectOf P) → ReportOf P → Option Error)
      → Text
      → Text
      → WriteOptions
      → Handler P S (ObjectOf P)
  update_checked updated validate namespace name options = do
    old ← get_polr name namespace
    let obj = (updated (some old)).0
    raise_if P S (updated (some old)).1
    check_validation P S (validate obj old) options.field_validation
    polr ← as_report P S (codes "failed to validate policy report") obj
    let r = default_namespace namespace polr
    if is_dry_run options then pure (report r) else update_stored r

  -- `Update`
  unfoldable pub update :
      UpdatedObjectInfo P S
      → (Option (ObjectOf P) → ReportOf P → Option Error)
      → Text
      → Text
      → Bool
      → WriteOptions
      → Handler P S (ObjectOf P)
  update updated validate namespace name true options = update_forced updated namespace name
  update updated validate namespace name false options =
      update_checked updated validate namespace name options

  abbrev pub invalid_resource : Option Error → Option Error
  invalid_resource none = none
  invalid_resource (some e) = some (bad_request (codes "invalid resource: " ++ P.error_text e))

  abbrev pub cannot_delete : Error → Error
  cannot_delete e = bad_request (codes "failed to delete policyreport: " ++ P.error_text e)

  -- `Delete` up to the conversion of its result.
  unfoldable pub delete_report :
      (ReportOf P → Option Error) → Text → WriteOptions → Text → Handler P S (ReportOf P)
  delete_report validate namespace options name = do
    polr ← or_fail (λ _. not_found (codes "policyreports") name) (get_polr name namespace)
    raise_if P S (invalid_resource (validate polr))
    if is_dry_run options then pure polr else do
      or_fail cannot_delete (delete_polr polr)
      broadcast P S deleted (report polr)
      pure polr

  -- `Delete`: its second result is true where this returns, and false where this fails.
  unfoldable pub delete :
      (ReportOf P → Option Error) → Text → WriteOptions → Text → Handler P S (ObjectOf P)
  delete validate namespace options name = do
    polr ← delete_report validate namespace options name
    polr_to_obj polr

  -- The loop of `DeleteCollection`, over any `Delete`.
  unfoldable pub delete_loop :
      (Text → Handler P S (ObjectOf P)) → List (ReportOf P) → Handler P S (Unit {0})
  delete_loop delete_one [] = pure tt
  delete_loop delete_one (r ∷ rs) = do
    obj ←
        or_fail
          (λ _.
            bad_request
              (codes "Failed to delete policy report: " ++ (r.namespace ++ (codes "/" ++ r.name))))
          (delete_one r.name)
    broadcast P S deleted obj
    delete_loop delete_one rs

  -- `DeleteCollection`, over any `Delete`.
  unfoldable pub delete_collection_by :
      (Text → Handler P S (ObjectOf P))
      → Text
      → WriteOptions
      → Option (ListOptions P)
      → Handler P S (ReportList P.Body)
  delete_collection_by delete_one namespace options list_options = do
    found ←
        or_fail (λ _. bad_request (codes "Failed to find policy reports"))
          (list namespace list_options)
    if is_dry_run options then pure found else do delete_loop delete_one found.items; pure found

  unfoldable pub delete_collection :
      (ReportOf P → Option Error)
      → Text
      → WriteOptions
      → Option (ListOptions P)
      → Handler P S (ReportList P.Body)
  delete_collection validate namespace options =
      delete_collection_by (delete validate namespace options) namespace options

  -- `Watch`
  unfoldable pub watch : Handler P S P.Watcher
  watch = watch_broadcaster P S
