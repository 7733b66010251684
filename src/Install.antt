-- ===== src/Install.antt =====
-- pkg/api/install.go: the resources of the API group, over one storage.
use policy_server.Prelude.{Option, []}
use policy_server.Prelude.Texts.{Text, codes}
use policy_server.Result.{Error}
use policy_server.Storage.{Storage}
use policy_server.Storage.GoMap.{GoMap, insert}
use policy_server.Report.{Platform}
use policy_server.Handler.{State}
use policy_server.Polr.{policy_report_store}
use policy_server.Cpolr.{cluster_policy_report_store}

module _ (P : Platform) (S : Storage) where
  -- `rest.Storage`: a store of either kind.
  pub data RestStorage : Type 0 where
    policy_reports : State P S → RestStorage
    cluster_policy_reports : State P S → RestStorage

  -- `genericapiserver.APIGroupInfo`: the versions' resources.
  pub record ApiGroupInfo : Type 0 where
    pub versioned_resources_storage_map : GoMap (GoMap RestStorage)

  -- `Build`, from what `NewDefaultAPIGroupInfo` returns, for a version.
  unfoldable pub build : ApiGroupInfo → Text → RestStorage → RestStorage → ApiGroupInfo
  build api_group_info version polr cpolr =
      let policy_server_resources =
        insert (codes "clusterpolicyreports") cpolr (insert (codes "policyreports") polr []) in
      record {
        versioned_resources_storage_map =
            insert version policy_server_resources api_group_info.versioned_resources_storage_map;
      }

  -- `Install`, with the server's `InstallAPIGroup` and its error.
  unfoldable pub install :
      (ApiGroupInfo → Option Error) → ApiGroupInfo → Text → S.State → P.World → Option Error
  install install_api_group api_group_info version store world =
      let polr = policy_reports (policy_report_store P S store world) in
      let cpolr = cluster_policy_reports (cluster_policy_report_store P S store world) in
      install_api_group (build api_group_info version polr cpolr)
