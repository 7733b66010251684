-- ===== src/Tests/Reports.antt =====
-- The theorems on namespaced policy reports, at concrete inputs over the in-memory database.
use policy_server.Prelude.{◌≡◌, refl, inl, true, false, Option, none, some, [], ◌∷◌}
use policy_server.Prelude.Texts.{Text, codes, text_eq, contains}
use policy_server.Result.{Error, ok, foreign, ◌>>=◌}
use policy_server.Strconv.{pos, sprint, next_int64, parse_int, parse_uint}
use policy_server.Handler.{
  check_validation, UpdatedObjectInfo, is_dry_run, added, action, ReportOf, ObjectOf, Untouched,
  decode,
}
use policy_server.Storage.InMemory.{find, InMemoryDb, RangeOrder, inmemory_storage, group_resource}
use policy_server.Storage.InMemory
use policy_server.Polr.{update_checked, get_polr, key, create, update, get, default_namespace}
use policy_server.Polr.Update.Forced.{update_forced_missing, update_forced_stored}
use policy_server.Polr.Update.{update_then_get, update-Failed}
use policy_server.Storage.GoMap.{lookup}
use policy_server.Report.{report}
use policy_server.Polr.Reads.{held}
use policy_server.Polr.Create.{create_then_get, create-Failed}
use policy_server.Tests.{sample, to_json}
use policy_server.Tests.Setup.{
  decoded, dry, first, first_stored, fresh, fresh-IsOpen, law, memory, real, stocked,
  stocked-IsOpen, there, valid,
}

create_then_get_example :
    let t = (create sample memory valid (codes "ns") (report first) real fresh).1 in
    ((create sample memory valid (codes "ns") (report first) real fresh).0
      ≡ ok (report first_stored))
    × (t.calls ≡ action added (report first_stored) ∷ [])
    × (get sample memory (codes "ns") (codes "a") t ≡ (ok first_stored, t))
    × ((j : Text)
        → text_eq (key sample.group_version (codes "a") (codes "ns")) j ≡ false
        → lookup j (law.entries t.store) ≡ lookup j (law.entries fresh.store))
unfolding default_namespace decode is_dry_run contains lookup sprint
create_then_get_example =
    create_then_get sample memory law valid (codes "ns") real first (to_json first_stored)
      first_stored fresh fresh-IsOpen (inl refl) refl refl refl refl

abbrev invalid : ObjectOf sample → Option Error
invalid obj = some (foreign (codes "no"))

create-Failed_example :
    Untouched sample memory stocked
      (create sample memory invalid (codes "ns") (report first) real stocked).1
unfolding create check_validation text_eq ◌>>=◌
create-Failed_example =
    create-Failed sample memory law invalid (codes "ns") real (report first) stocked stocked-IsOpen
      tt

-- The update gives the stored report another body.
abbrev rewrite : UpdatedObjectInfo sample memory
rewrite none = (some (report (record first { namespace = codes "ns" })), none)
rewrite (some old) = (some (report (record old { body = 3 })), none)

abbrev valid_update : Option (ObjectOf sample) → ReportOf sample → Option Error
valid_update obj old = none

abbrev second : ReportOf sample
second = record first_stored { body = 3 }

abbrev second_stored : ReportOf sample
second_stored = record second { resource_version = codes "2" }

update_then_get_example :
    let t =
      (update sample memory rewrite valid_update (codes "ns") (codes "a") false real stocked).1 in
    ((update sample memory rewrite valid_update (codes "ns") (codes "a") false real stocked).0
      ≡ ok (report second_stored))
    × (parse_int (codes "2") ≡ (pos 2, none))
    × (t.calls ≡ action added (report second_stored) ∷ [])
    × (get sample memory (codes "ns") (codes "a") t ≡ (ok second_stored, t))
    × ((j : Text)
        → text_eq (key sample.group_version (codes "a") (codes "ns")) j ≡ false
        → lookup j (law.entries t.store) ≡ lookup j (law.entries stocked.store))
unfolding default_namespace decode is_dry_run contains sprint next_int64 parse_int parse_uint
update_then_get_example =
    update_then_get sample memory law rewrite valid_update (codes "ns") (codes "a") real
      (to_json first_stored) (to_json first_stored) (to_json second_stored) first_stored second
      first_stored second_stored (pos 1) stocked stocked-IsOpen there decoded refl (inl refl) refl
      there decoded refl refl refl

update-Failed_example :
    Untouched sample memory stocked
      (update sample memory rewrite valid_update (codes "ns") (codes "b") false real stocked).1
unfolding update update_checked get_polr InMemory.get find lookup key text_eq ◌>>=◌
update-Failed_example =
    update-Failed sample memory law rewrite valid_update (codes "ns") (codes "b") real stocked
      stocked-IsOpen tt

update_forced_missing_example :
    update sample memory rewrite valid_update (codes "ns") (codes "a") true real fresh ≡ (
      ok (report (record first { namespace = codes "ns"; resource_version = codes "1" })),
      record fresh {
        calls =
            action added
              (report (record first { namespace = codes "ns"; resource_version = codes "1" }))
            ∷ [];
      },
    )
unfolding lookup
update_forced_missing_example =
    update_forced_missing sample memory law rewrite valid_update (codes "ns") (codes "a") real
      (record first { namespace = codes "ns" })
      (to_json (record first { namespace = codes "ns"; resource_version = codes "1" })) fresh
      fresh-IsOpen refl refl refl refl

update_forced_stored_example :
    let t =
      (update sample memory rewrite valid_update (codes "ns") (codes "a") true dry stocked).1 in
    ((update sample memory rewrite valid_update (codes "ns") (codes "a") true dry stocked).0
      ≡ ok (report second))
    × (held sample memory law (codes "a") (codes "ns") t ≡ some (to_json second))
    × (t.calls ≡ action added (report second) ∷ [])
update_forced_stored_example =
    update_forced_stored sample memory law rewrite valid_update (codes "ns") (codes "a") dry
      (to_json first_stored) (to_json first_stored) (to_json second) first_stored second stocked
      stocked-IsOpen there decoded refl there refl
