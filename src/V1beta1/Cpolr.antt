-- ===== src/V1beta1/Cpolr.antt =====
-- pkg/api/v1beta1/cpolr.go: the text of pkg/api/cpolr.go at the types of v1beta1, but `Delete` returns the
-- deleted report itself. The handlers are those of `Cpolr` at a platform whose group version is that of
-- v1beta1; `Delete` and what calls it are written out.
pub mod Resource
use policy_server.Prelude.{Bool, Option}
use policy_server.Prelude.Texts.{Text}
use policy_server.Result.{Error, pure, ◌>>=◌}
use policy_server.Storage.{Storage}
use policy_server.Report.{Platform, ReportList, report}
use policy_server.Handler.{
  WriteOptions, ListOptions, ReportOf, ObjectOf, State, Handler, UpdatedObjectInfo,
}
use policy_server.Cpolr

-- `key` and `keyForList`
unfoldable pub key : Text → Text → Text
unfolding Cpolr.key
key = Cpolr.key

unfoldable pub key_for_list : Text → Text
unfolding Cpolr.key_for_list
key_for_list = Cpolr.key_for_list

module _ (P : Platform) (S : Storage) where
  -- `ClusterPolicyReportStore`
  unfoldable pub cluster_policy_report_store : S.State → P.World → State P S
  unfolding Cpolr.cluster_policy_report_store
  cluster_policy_report_store = Cpolr.cluster_policy_report_store P S

  -- `getCpolr`
  unfoldable pub get_cpolr : Text → Handler P S (ReportOf P)
  unfolding Cpolr.get_cpolr
  get_cpolr = Cpolr.get_cpolr P S

  -- `listCpolr`
  unfoldable pub list_cpolr : Handler P S (ReportList P.Body)
  unfolding Cpolr.list_cpolr
  list_cpolr = Cpolr.list_cpolr P S

  -- `createCpolr`
  unfoldable pub create_cpolr : ReportOf P → Handler P S (ReportOf P)
  unfolding Cpolr.create_cpolr
  create_cpolr = Cpolr.create_cpolr P S

  -- `updatePolr`
  unfoldable pub update_polr : ReportOf P → Bool → Handler P S (ReportOf P)
  unfolding Cpolr.update_polr
  update_polr = Cpolr.update_polr P S

  -- `deletePolr`
  unfoldable pub delete_polr : ReportOf P → Handler P S (Unit {0})
  unfolding Cpolr.delete_polr
  delete_polr = Cpolr.delete_polr P S

  -- `List`
  unfoldable pub list : Option (ListOptions P) → Handler P S (ReportList P.Body)
  unfolding Cpolr.list
  list = Cpolr.list P S

  -- `Get`
  unfoldable pub get : Text → Handler P S (ReportOf P)
  unfolding Cpolr.get
  get = Cpolr.get P S

  -- `Create`
  unfoldable pub create :
      (ObjectOf P → Option Error) → ObjectOf P → WriteOptions → Handler P S (ObjectOf P)
  unfolding Cpolr.create
  create = Cpolr.create P S

  -- `Update`
  unfoldable pub update :
      UpdatedObjectInfo P S
      → (Option (ObjectOf P) → ReportOf P → Option Error)
      → Text
      → Bool
      → WriteOptions
      → Handler P S (ObjectOf P)
  unfolding Cpolr.update
  update = Cpolr.update P S

  -- `Delete`: its second result is true where this returns, and false where this fails.
  unfoldable pub delete :
      (ReportOf P → Option Error) → WriteOptions → Text → Handler P S (ObjectOf P)
  delete validate options name = do
    cpolr ← Cpolr.delete_report P S validate options name
    pure (report cpolr)

  -- `DeleteCollection`
  unfoldable pub delete_collection :
      (ReportOf P → Option Error)
      → WriteOptions
      → Option (ListOptions P)
      → Handler P S (ReportList P.Body)
  delete_collection validate options =
      Cpolr.delete_collection_by P S (delete validate options) options

  -- `Watch`
  unfoldable pub watch : Handler P S P.Watcher
  unfolding Cpolr.watch
  watch = Cpolr.watch P S
