-- ===== src/Tests/Removal.antt =====
-- The theorems on removing and listing policy reports, at concrete inputs.
use mathlib.Core.List.{filter_map}
use policy_server.Prelude.{
  if◌then◌else◌, arith, ◌≡◌, refl, false, Option, none, some, [], ◌∷◌, ◌+◌, ◌*◌,
}
use policy_server.Prelude.Texts.{Text, codes, text_eq, contains, has_prefix}
use policy_server.Result.{Error, ok, err, foreign, not_found, ◌>>=◌, or_fail}
use policy_server.Strconv.{pos, parse_int, parse_uint}
use policy_server.Storage.GoMap.{lookup}
use policy_server.Report.{Platform, ReportList, report, unstructured}
use policy_server.Handler.{
  select_loop, raise_if, is_dry_run, deleted, action, State, ReportOf, ListOptions, decode,
  decode_list, decode_loop, listing, selector_of, call_count,
}
use policy_server.Storage.InMemory
use policy_server.Storage.InMemory.{find}
use policy_server.Polr.{
  key_for_list, delete_report, delete_polr, delete_loop, delete_collection_by, polr_to_obj,
  get_polr, key, get, delete, list, list_polr, delete_collection,
}
use policy_server.Polr.Reads.{held}
use policy_server.Polr.Delete.{delete_then_get, delete_unconverted}
use policy_server.Polr.Listing.{
  list_selects, list_all_namespaces, AllNamespaced, some_unlabelled, matching,
}
use policy_server.Polr.Listing.Collection.{delete_collection_calls, length}
use policy_server.Tests.{sample, to_json}
use policy_server.Tests.Setup.{
  memory, law, first_stored, stocked, stocked-IsOpen, there, decoded, real,
}

abbrev valid_removal : ReportOf sample → Option Error
valid_removal r = none

delete_then_get_example :
    let t = (delete sample memory valid_removal (codes "ns") real (codes "a") stocked).1 in
    ((delete sample memory valid_removal (codes "ns") real (codes "a") stocked).0
      ≡ ok (unstructured (to_json first_stored)))
    × (t.calls ≡ action deleted (report first_stored) ∷ [])
    × (get sample memory (codes "ns") (codes "a") t
        ≡ (err (not_found (codes "policyreports") (codes "a")), t))
    × ((j : Text)
        → text_eq (key sample.group_version (codes "a") (codes "ns")) j ≡ false
        → lookup j (law.entries t.store) ≡ lookup j (law.entries stocked.store))
unfolding parse_int parse_uint is_dry_run contains text_eq
delete_then_get_example =
    delete_then_get sample memory law valid_removal (codes "ns") (codes "a") real
      (to_json first_stored) (to_json first_stored) first_stored (to_json first_stored) (pos 1)
      stocked stocked-IsOpen there decoded refl refl refl refl refl refl refl

-- A platform that converts no report.
abbrev stubborn : Platform
stubborn = record sample { to_unstructured = λ bytes. err (foreign bytes) }

abbrev stubborn_stocked : State stubborn memory
stubborn_stocked = record { store = stocked.store; calls = []; world = 9 }

abbrev stubborn_valid : ReportOf stubborn → Option Error
stubborn_valid r = none

delete_unconverted_example :
    let t =
      (delete stubborn memory stubborn_valid (codes "ns") real (codes "a") stubborn_stocked).1 in
    ((delete stubborn memory stubborn_valid (codes "ns") real (codes "a") stubborn_stocked).0
      ≡ err (foreign (to_json first_stored)))
    × (t.calls ≡ action deleted (report first_stored) ∷ [])
    × (held stubborn memory law (codes "a") (codes "ns") t ≡ none)
unfolding parse_int parse_uint is_dry_run contains text_eq lookup key decode
delete_unconverted_example =
    delete_unconverted stubborn memory law stubborn_valid (codes "ns") (codes "a") real
      (to_json first_stored) (to_json first_stored) first_stored (foreign (to_json first_stored))
      (pos 1) stubborn_stocked stocked-IsOpen refl refl refl refl refl refl refl refl refl

-- Asks for reports with a label `team`.
abbrev team : Option (ListOptions sample)
team = some record { label_selector = some (codes "team") }

abbrev everything_found : ReportList sample.Body
everything_found = listing sample (first_stored ∷ [])

list_selects_example : list sample memory (codes "ns") team stocked ≡ (
  ok (
      if some_unlabelled sample everything_found.items
      then everything_found
      else listing sample (matching sample (selector_of sample team) everything_found.items)),
  record stocked { store = record stocked.store { entropy = 1 } },
)
unfolding list_polr decode_list decode_loop ◌>>=◌ or_fail InMemory.list filter_map has_prefix
    key_for_list
list_selects_example =
    list_selects sample memory (codes "ns") team everything_found stocked
      (record stocked { store = record stocked.store { entropy = 1 } }) refl

stocked-AllNamespaced : AllNamespaced sample memory law (law.entries stocked.store)
unfolding key
stocked-AllNamespaced = (
  (codes "a", codes "ns", refl, (λ e. omega (arith, e), (λ e. omega (arith, e), tt)), λ e. cc),
  tt,
)

list_all_namespaces_example : (list sample memory [] none stocked).0 ≡ ok (listing sample [])
list_all_namespaces_example =
    list_all_namespaces sample memory law none stocked stocked-IsOpen stocked-AllNamespaced

delete_collection_calls_example :
    call_count sample memory
      (delete_collection sample memory valid_removal (codes "ns") real none stocked).1.calls
    ≡ 0 + 2 * length everything_found.items
unfolding is_dry_run contains text_eq parse_int parse_uint lookup key key_for_list has_prefix decode
    decode_loop decode_list list_polr list select_loop delete delete_report delete_polr delete_loop
    delete_collection delete_collection_by polr_to_obj raise_if get_polr InMemory.get InMemory.list
    InMemory.delete find selector_of ◌>>=◌ or_fail filter_map
delete_collection_calls_example =
    delete_collection_calls sample memory valid_removal (codes "ns") real none stocked
      everything_found refl refl
