-- ===== src/Polr/Resource.antt =====
-- pkg/api/polr.go: what the store says of its resource.
use policy_server.Prelude.{Bool, true, List, [], ◌∷◌}
use policy_server.Prelude.Texts.{Text, codes}
use policy_server.Result.{pure}
use policy_server.Storage.{Storage}
use policy_server.Report.{Platform, report, report_list}
use policy_server.Handler.{ObjectOf, Handler, listing}

-- `New`: the zero value of the report's type.
unfoldable pub new : (P : Platform) → ObjectOf P
new P = report (P.view P.empty_heap P.zero_cell)

-- `NewList`
unfoldable pub new_list : (P : Platform) → ObjectOf P
new_list P = report_list (listing P [])

-- `Destroy`
unfoldable pub destroy : (P : Platform) (S : Storage) → Handler P S (Unit {0})
destroy P S = pure tt

-- `Kind`
unfoldable pub kind : Text
kind = codes "PolicyReport"

-- `NamespaceScoped`
unfoldable pub namespace_scoped : Bool
namespace_scoped = true

-- `GetSingularName`
unfoldable pub get_singular_name : Text
get_singular_name = codes "policyreport"

-- `ShortNames`
unfoldable pub short_names : List Text
short_names = codes "polr" ∷ []
