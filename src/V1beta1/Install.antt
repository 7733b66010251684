-- ===== src/V1beta1/Install.antt =====
-- pkg/api/v1beta1/install.go: the text of pkg/api/install.go at the types of v1beta1, but the scheme and the
-- codecs, which stand in the default information about the group, are arguments.
use policy_server.Prelude.{Option}
use policy_server.Prelude.Texts.{Text}
use policy_server.Result.{Error}
use policy_server.Storage.{Storage}
use policy_server.Report.{Platform}
use policy_server.Install
use policy_server.Install.{RestStorage, ApiGroupInfo}

module _ (P : Platform) (S : Storage) where
  -- `Build`
  unfoldable pub build :
      ApiGroupInfo P S → Text → RestStorage P S → RestStorage P S → ApiGroupInfo P S
  unfolding Install.build
  build = Install.build P S

  -- `V1Beta1Install`
  unfoldable pub v1_beta1_install :
      (ApiGroupInfo P S → Option Error) → ApiGroupInfo P S → Text → S.State → P.World → Option Error
  unfolding Install.install
  v1_beta1_install = Install.install P S
