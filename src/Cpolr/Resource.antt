-- ===== src/Cpolr/Resource.antt =====
-- pkg/api/cpolr.go: what the store says of its resource.
use policy_server.Prelude.{ℕ, Bool, false, List, [], ◌∷◌}
use policy_server.Prelude.Texts.{Text, codes}
use policy_server.Result.{pure}
use policy_server.Storage.{Storage}
use policy_server.Report.{Platform, report, report_list}
use policy_server.Handler.{ObjectOf, Handler, listing}
use policy_server.Table

-- `New`: the zero value of the report's type.
unfoldable pub new : (P : Platform) → ObjectOf P
new P = report (P.view P.empty_heap P.zero_cell)

-- `NewList`
unfoldable pub new_list : (P : Platform) → ObjectOf P
new_list P = report_list (listing P [])

-- `Destroy`
unfoldable pub destroy : (P : Platform) (S : Storage) → Handler P S (Unit {0})
destroy P S = pure tt

-- `Kind`
unfoldable pub kind : Text
kind = codes "ClusterPolicyReport"

-- `NamespaceScoped`
unfoldable pub namespace_scoped : Bool
namespace_scoped = false

-- `GetSingularName`
unfoldable pub get_singular_name : Text
get_singular_name = codes "clusterpolicyreport"

-- `ShortNames`
unfoldable pub short_names : List Text
short_names = codes "cpolr" ∷ []

-- `ConvertToTable`, with the text of the same method of pkg/api/polr.go
unfoldable pub convert_to_table :
    (P : Platform) (age_text : ℕ → ℕ → Text)
    → ObjectOf P
    → P.World
    → Table.Table P age_text × P.World
unfolding Table.convert_to_table
convert_to_table P age_text = Table.convert_to_table P age_text
