-- ===== src/Tests/Versions.antt =====
-- The theorems on shared decoder memory and on the API versions, at concrete inputs.
use policy_server.Prelude.{ℕ, sym, ap, ◌∙◌, List, ◌≡◌, refl, Option, none, some, [], ◌∷◌}
use policy_server.Prelude.Texts.{Text, codes, text_eq}
use policy_server.Result.{Error, Result, ok, foreign}
use policy_server.Handler.{decode_loop, ReportOf, decode_list, listing}
use policy_server.Tests.{sample, to_json, Cell, Maps, map_at, from_json, place_labels}
use policy_server.Tests.Setup.{memory, law, first_stored, stocked, stocked-IsOpen, real}
use policy_server.Storage.GoMap.{GoMap, insert}
use policy_server.Storage.{Value}
use policy_server.Polr.Listing.Shared.{ReusesMaps, Labelled, decode_list_shares}
use policy_server.V1alpha1.Polr as V1alpha1
use policy_server.V1alpha2.Polr as V1alpha2
use policy_server.V1beta1.Polr as V1beta1
use policy_server.V1alpha1.Cpolr as Alpha1Cpolr
use policy_server.V1alpha2.Cpolr as Alpha2Cpolr
use policy_server.V1beta1.Cpolr as Beta1Cpolr
use policy_server.Versions.{Undone, version_deletes-Failed}

abbrev keeps_none : ReportOf sample → Option Error
keeps_none r = none

abbrev of_team : Text → ReportOf sample
of_team name = record first_stored { name = name; labels = some ((codes "team", name) ∷ []) }

abbrev value_of : ReportOf sample → Value
value_of r = record { key = r.name; value_data = to_json r; modified = 0 }

-- The label map of a value's report goes into the map that stands in the variable.
sample-ReusesMaps : (vs : List Value) → ReusesMaps sample vs
sample-ReusesMaps vs = record {
  Address = ℕ;
  address = λ cell. cell.label_map;
  labels_at = map_at;
  labels_of = λ heap cell at points. rw points refl;
  reused =
      λ v m cell cell' heap heap' at points e. keeps v.value_data cell cell' heap heap' at points e;
}
  where
    label_map_of : Result (Cell × Maps) → Option ℕ
    label_map_of (ok (c, h)) = c.label_map
    label_map_of _ = none

    placed_at :
        (labels : Option (GoMap Text)) (n : ℕ) (ms : Maps)
        → (place_labels labels (some n) ms).0 ≡ some n
    placed_at none n ms = refl
    placed_at (some m) n ms = refl

    keeps :
        (bytes : Text) (cell cell' : Cell) (heap heap' : Maps) (at : ℕ)
        → cell.label_map ≡ some at
        → from_json bytes cell heap ≡ ok (cell', heap')
        → cell'.label_map ≡ some at
    keeps bytes cell cell' heap heap' at points e =
        sym (ap label_map_of e) ∙ (rw points (placed_at _ at heap))

abbrev leaked : ReportOf sample
leaked = record (of_team (codes "a")) { labels = some ((codes "team", codes "b") ∷ []) }

-- The last label stands in both reports.
decode_list_shares_example :
    (m : GoMap Text) × Labelled sample m
      (value_of (of_team (codes "a")) ∷ value_of (of_team (codes "b")) ∷ [])
      (leaked ∷ of_team (codes "b") ∷ [])
unfolding insert text_eq decode_list decode_loop sample-ReusesMaps
decode_list_shares_example =
    decode_list_shares sample (value_of (of_team (codes "a"))) (value_of (of_team (codes "b")) ∷ [])
      (sample-ReusesMaps (value_of (of_team (codes "b")) ∷ []))
      (record { plain = record (of_team (codes "a")) { labels = none }; label_map = some 0 })
      (((codes "team", codes "a") ∷ []) ∷ []) 0 (listing sample (leaked ∷ of_team (codes "b") ∷ []))
      refl refl refl

abbrev refused : ReportOf sample → Option Error
refused r = some (foreign (codes "no"))

version_deletes-Failed_example :
    (Undone sample memory stocked
        (V1alpha1.delete sample memory refused (codes "ns") real (codes "a"))
      × Undone sample memory stocked
          (V1alpha2.delete sample memory refused (codes "ns") real (codes "a"))
      × Undone sample memory stocked
          (V1beta1.delete sample memory refused (codes "ns") real (codes "a")))
    × (Undone sample memory stocked (Alpha1Cpolr.delete sample memory refused real (codes "a"))
        × Undone sample memory stocked (Alpha2Cpolr.delete sample memory refused real (codes "a"))
        × Undone sample memory stocked (Beta1Cpolr.delete sample memory refused real (codes "a")))
version_deletes-Failed_example =
    version_deletes-Failed sample memory law refused (codes "ns") (codes "a") real stocked
      stocked-IsOpen
