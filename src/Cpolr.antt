-- ===== src/Cpolr.antt =====
-- pkg/api/cpolr.go: the handlers of cluster-wide policy reports, over any storage.
pub mod Resource
pub mod Reads
pub mod Writes
pub mod Atomic
pub mod Frame
use policy_server.Prelude.{
  Bool, true, false, Option, none, some, List, [], ◌∷◌, ◌++◌, if◌then◌else◌,
}
use policy_server.Prelude.Texts.{Text, codes}
use policy_server.Result.{
  Error, ok, err, not_found, bad_request, wrapped, pure, lift, or_fail, attempt, ◌>>=◌, ◌>>◌,
}
use policy_server.Strconv.{pos, next_int64, sprint, parse_int}
use policy_server.Storage.{Storage}
use policy_server.Report.{ReportList, report, unstructured, Platform}
use policy_server.Polr.{parsed}
use policy_server.Handler.{
  WriteOptions, is_dry_run, added, deleted, ReportOf, ObjectOf, ListOptions, decode, decode_list,
  selector_of, select_loop, State, Handler, stored, broadcast, fresh_uid, current_time,
  check_validation, as_report, must_report, UpdatedObjectInfo, raise_if, watch_broadcaster,
}

-- `key` and `keyForList`, from `SchemeGroupVersion`
unfoldable pub key : Text → Text → Text
key group_version name =
    codes "/apis/" ++ (group_version ++ (codes "/clusterpolicyreports/" ++ name))

unfoldable pub key_for_list : Text → Text
key_for_list group_version = codes "/apis/" ++ (group_version ++ codes "/clusterpolicyreports/")

module _ (P : Platform) (S : Storage) where
  -- `ClusterPolicyReportStore`
  unfoldable pub cluster_policy_report_store : S.State → P.World → State P S
  cluster_policy_report_store store world = record { store = store; calls = []; world = world }

  -- `getCpolr`
  unfoldable pub get_cpolr : Text → Handler P S (ReportOf P)
  get_cpolr name = do
    val ←
        or_fail (wrapped (codes "could not find cluster policy report in store"))
          (stored P S (S.get (key P.group_version name)))
    or_fail (λ _. bad_request (codes "invalid object found")) (lift (decode P val.value_data))

  -- `listCpolr`
  unfoldable pub list_cpolr : Handler P S (ReportList P.Body)
  list_cpolr = do
    vals ←
        or_fail (wrapped (codes "could not find cluster policy report in store"))
          (stored P S (S.list (key_for_list P.group_version) 0))
    or_fail (λ _. bad_request (codes "invalid object found")) (lift (decode_list P vals))

  -- `createCpolr`, with the report as it is stored. It calls the storage's `Update`.
  unfoldable pub create_cpolr : ReportOf P → Handler P S (ReportOf P)
  create_cpolr r = do
    uid ← fresh_uid P S
    now ← current_time P S
    let r' : ReportOf P = record r {
      resource_version = sprint (pos 1);
      uid = uid;
      creation_timestamp = now;
    }
    val ← or_fail (wrapped (codes "could not marshal report")) (lift (P.marshal r'))
    stored P S (S.update (key P.group_version r.name) (pos 1) val)
    pure r'

  -- The first half of `updatePolr`: the new resource version.
  unfoldable pub next_version : ReportOf P → Bool → Handler P S (ReportOf P)
  next_version r false = do
    old ← or_fail (wrapped (codes "old cluster policy report not found")) (get_cpolr r.name)
    old_rv ←
        or_fail (wrapped (codes "could not parse resource version"))
          (lift (parsed (parse_int old.resource_version)))
    pure (record r { resource_version = sprint (next_int64 old_rv) })
  next_version r true = pure (record r { resource_version = codes "1" })

  -- `updatePolr`, with the report as it is stored.
  unfoldable pub update_polr : ReportOf P → Bool → Handler P S (ReportOf P)
  update_polr r force = do
    r' ← next_version r force
    val ← or_fail (wrapped (codes "could not marshal report")) (lift (P.marshal r'))
    stored P S (S.update (key P.group_version r.name) (parse_int r'.resource_version).0 val)
    pure r'

  -- `deletePolr`
  unfoldable pub delete_polr : ReportOf P → Handler P S (Unit {0})
  delete_polr r = do
    rev ←
        or_fail (wrapped (codes "could not marshal report's resource version"))
          (lift (parsed (parse_int r.resource_version)))
    stored P S (S.delete (key P.group_version r.name) rev)

  -- `cpolrToObj`
  unfoldable pub cpolr_to_obj : ReportOf P → Handler P S (ObjectOf P)
  cpolr_to_obj r = do
    bytes ← lift (P.marshal r)
    unst ← lift (P.to_unstructured bytes)
    pure (unstructured unst)

  -- `List`
  unfoldable pub list : Option (ListOptions P) → Handler P S (ReportList P.Body)
  list options = do
    all ←
        or_fail (λ _. bad_request (codes "failed to list resource clusterpolicyreport")) list_cpolr
    pure (select_loop P (selector_of P options) all all.items [])

  -- `Get`
  unfoldable pub get : Text → Handler P S (ReportOf P)
  get name = or_fail (λ _. not_found (codes "clusterpolicyreports") name) (get_cpolr name)

  abbrev pub cannot_create : Error → Error
  cannot_create e = bad_request (codes "cannot create cluster policy report: " ++ P.error_text e)

  -- The last part of `Create` and of `Update`, after the dry-run test.
  unfoldable pub create_stored : ReportOf P → Handler P S (ObjectOf P)
  create_stored r = do
    r' ← or_fail cannot_create (create_cpolr r)
    broadcast P S added (report r')
    pure (report r')

  -- `Create`
  unfoldable pub create :
      (ObjectOf P → Option Error) → ObjectOf P → WriteOptions → Handler P S (ObjectOf P)
  create validate obj options = do
    check_validation P S (validate obj) options.field_validation
    cpolr ← as_report P S (codes "failed to validate cluster policy report") (some obj)
    if is_dry_run options then pure (report cpolr) else create_stored cpolr

  -- `Update` with `forceAllowCreate`
  unfoldable pub update_forced : UpdatedObjectInfo P S → Text → Handler P S (ObjectOf P)
  update_forced updated name = do
    old ← attempt (get_cpolr name)
    cpolr ← must_report P S (updated old).0
    attempt (update_polr cpolr true)
    let r : ReportOf P = record cpolr { resource_version = codes "1" }
    broadcast P S added (report r)
    pure (report r)

  -- `Update` without `forceAllowCreate`
  unfoldable pub update_checked :
      UpdatedObjectInfo P S
      → (Option (ObjectOf P) → ReportOf P → Option Error)
      → Text
      → WriteOptions
      → Handler P S (ObjectOf P)
  update_checked updated validate name options = do
    old ← get_cpolr name
    let obj = (updated (some old)).0
    raise_if P S (updated (some old)).1
    check_validation P S (validate obj old) options.field_validation
    cpolr ← as_report P S (codes "failed to validate cluster policy report") obj
    if is_dry_run options then pure (report cpolr) else create_stored cpolr

  -- `Update`
  unfoldable pub update :
      UpdatedObjectInfo P S
      → (Option (ObjectOf P) → ReportOf P → Option Error)
      → Text
      → Bool
      → WriteOptions
      → Handler P S (ObjectOf P)
  update updated validate name true options = update_forced updated name
  update updated validate name false options = update_checked updated validate name options

  abbrev pub invalid_resource : Option Error → Option Error
  invalid_resource none = none
  invalid_resource (some e) = some (bad_request (codes "invalid resource: " ++ P.error_text e))

  abbrev pub cannot_delete : Error → Error
  cannot_delete e = bad_request (codes "failed to delete clusterpolicyreport: " ++ P.error_text e)

  -- `Delete` up to the conversion of its result.
  unfoldable pub delete_report :
      (ReportOf P → Option Error) → WriteOptions → Text → Handler P S (ReportOf P)
  delete_report validate options name = do
    cpolr ← or_fail (λ _. not_found (codes "clusterpolicyreports") name) (get_cpolr name)
    raise_if P S (invalid_resource (validate cpolr))
    if is_dry_run options then pure cpolr else do
      or_fail cannot_delete (delete_polr cpolr)
      broadcast P S deleted (report cpolr)
      pure cpolr

  -- `Delete`: its second result is true where this returns, and false where this fails.
  unfoldable pub delete :
      (ReportOf P → Option Error) → WriteOptions → Text → Handler P S (ObjectOf P)
  delete validate options name = do cpolr ← delete_report validate options name; cpolr_to_obj cpolr

  -- The loop of `DeleteCollection`, over any `Delete`.
  unfoldable pub delete_loop :
      (Text → Handler P S (ObjectOf P)) → List (ReportOf P) → Handler P S (Unit {0})
  delete_loop delete_one [] = pure tt
  delete_loop delete_one (r ∷ rs) = do
    obj ←
        or_fail (λ _. bad_request (codes "Failed to delete cluster policy report: " ++ r.name))
          (delete_one r.name)
    broadcast P S deleted obj
    delete_loop delete_one rs

  -- `DeleteCollection`, over any `Delete`.
  unfoldable pub delete_collection_by :
      (Text → Handler P S (ObjectOf P))
      → WriteOptions
      → Option (ListOptions P)
      → Handler P S (ReportList P.Body)
  delete_collection_by delete_one options list_options = do
    found ←
        or_fail (λ _. bad_request (codes "Failed to find cluster policy reports"))
          (list list_options)
    if is_dry_run options then pure found else do delete_loop delete_one found.items; pure found

  unfoldable pub delete_collection :
      (ReportOf P → Option Error)
      → WriteOptions
      → Option (ListOptions P)
      → Handler P S (ReportList P.Body)
  delete_collection validate options = delete_collection_by (delete validate options) options

  -- `Watch`
  unfoldable pub watch : Handler P S P.Watcher
  watch = watch_broadcaster P S
