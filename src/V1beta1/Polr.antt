-- ===== src/V1beta1/Polr.antt =====
-- pkg/api/v1beta1/polr.go: the text of pkg/api/polr.go at the types of v1beta1, but `Delete` returns the
-- deleted report itself. The handlers are those of `Polr` at a platform whose group version is that of
-- v1beta1; `Delete` and what calls it are written out.
pub mod Resource
use policy_server.Prelude.{Bool, Option}
use policy_server.Prelude.Texts.{Text}
use policy_server.Result.{Error, pure, ◌>>=◌}
use policy_server.Storage.{Storage}
use policy_server.Report.{Platform, ReportList, report}
use policy_server.Handler.{
  WriteOptions, ListOptions, ReportOf, ObjectOf, State, Handler, UpdatedObjectInfo,
}
use policy_server.Polr

-- `key` and `keyForList`
unfoldable pub key : Text → Text → Text → Text
unfolding Polr.key
key = Polr.key

unfoldable pub key_for_list : Text → Text → Text
unfolding Polr.key_for_list
key_for_list = Polr.key_for_list

module _ (P : Platform) (S : Storage) where
  -- `PolicyReportStore`
  unfoldable pub policy_report_store : S.State → P.World → State P S
  unfolding Polr.policy_report_store
  policy_report_store = Polr.policy_report_store P S

  -- `getPolr`
  unfoldable pub get_polr : Text → Text → Handler P S (ReportOf P)
  unfolding Polr.get_polr
  get_polr = Polr.get_polr P S

  -- `listPolr`
  unfoldable pub list_polr : Text → Handler P S (ReportList P.Body)
  unfolding Polr.list_polr
  list_polr = Polr.list_polr P S

  -- `createPolr`
  unfoldable pub create_polr : ReportOf P → Handler P S (ReportOf P)
  unfolding Polr.create_polr
  create_polr = Polr.create_polr P S

  -- `updatePolr`
  unfoldable pub update_polr : ReportOf P → Bool → Handler P S (ReportOf P)
  unfolding Polr.update_polr
  update_polr = Polr.update_polr P S

  -- `deletePolr`
  unfoldable pub delete_polr : ReportOf P → Handler P S (Unit {0})
  unfolding Polr.delete_polr
  delete_polr = Polr.delete_polr P S

  -- `List`
  unfoldable pub list : Text → Option (ListOptions P) → Handler P S (ReportList P.Body)
  unfolding Polr.list
  list = Polr.list P S

  -- `Get`
  unfoldable pub get : Text → Text → Handler P S (ReportOf P)
  unfolding Polr.get
  get = Polr.get P S

  -- `Create`
  unfoldable pub create :
      (ObjectOf P → Option Error) → Text → ObjectOf P → WriteOptions → Handler P S (ObjectOf P)
  unfolding Polr.create
  create = Polr.create P S

  -- `Update`
  unfoldable pub update :
      UpdatedObjectInfo P S
      → (Option (ObjectOf P) → ReportOf P → Option Error)
      → Text
      → Text
      → Bool
      → WriteOptions
      → Handler P S (ObjectOf P)
  unfolding Polr.update
  update = Polr.update P S

  -- `Delete`: its second result is true where this returns, and false where this fails.
  unfoldable pub delete :
      (ReportOf P → Option Error) → Text → WriteOptions → Text → Handler P S (ObjectOf P)
  delete validate namespace options name = do
    polr ← Polr.delete_report P S validate namespace options name
    pure (report polr)

  -- `DeleteCollection`
  unfoldable pub delete_collection :
      (ReportOf P → Option Error)
      → Text
      → WriteOptions
      → Option (ListOptions P)
      → Handler P S (ReportList P.Body)
  delete_collection validate namespace options =
      Polr.delete_collection_by P S (delete validate namespace options) namespace options

  -- `Watch`
  unfoldable pub watch : Handler P S P.Watcher
  unfolding Polr.watch
  watch = Polr.watch P S
