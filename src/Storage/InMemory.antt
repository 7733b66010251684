-- ===== src/Storage/InMemory.antt =====
-- pkg/storage/inmemory/client.go: the in-memory database. Its mutex makes each operation one step.
pub mod Laws
pub mod Refinement
pub mod Closed
pub mod Observed
use mathlib.Core.List.{filter_map}
use policy_server.Prelude.{ℕ, ◌+◌, Bool, true, false, Option, none, some, List, [], if◌then◌else◌}
use policy_server.Prelude.Texts.{Text, codes, has_prefix}
use policy_server.Result.{Result, ok, err, panicked, Error, not_found, already_exists, Exec}
use policy_server.Strconv.{ℤ}
use policy_server.Storage.{Value, Storage}
use policy_server.Storage.GoMap.{GoMap, lookup, insert, erase}

-- The resource name of `groupResource`.
abbrev pub group_resource : Text
group_resource = codes "policyreportsa"

-- `inMemoryDb`, where `none` is the nil map, with what the operations read from outside: the wall
-- clock in seconds as each read of it finds it, the number of its reads, and the source of the random
-- order in which `range` visits a map.
pub record InMemoryDb : Type 0 where
  pub db : Option (GoMap Value)
  pub clock : ℕ → ℕ
  pub reads : ℕ
  pub entropy : ℕ

-- `New`
pub new : (ℕ → ℕ) → ℕ → InMemoryDb
new clock entropy = record { db = some []; clock = clock; reads = 0; entropy = entropy }

-- `i.db[key] = client.Value{...}`: a write to the nil map panics.
unfoldable pub assign : Text → Text → Exec InMemoryDb (Unit {0})
assign k bytes s = elim s.db [
  | none ↦ (panicked, s)
  | some m ↦
      let v : Value = record { key = k; value_data = bytes; modified = s.clock s.reads } in
      (ok tt, record s { db = some (insert k v m); reads = s.reads + 1 })
]

-- `val, ok := i.db[key]`: the nil map has no keys.
unfoldable pub find : Text → Option (GoMap Value) → Option Value
find k none = none
find k (some m) = lookup k m

abbrev pub select : Text → Text × Value → Option Value
select prefix (k, v) = if has_prefix k prefix then some v else none

-- The order in which `range` visits the entries of a map, from the random source.
abbrev pub RangeOrder : Type 0
RangeOrder = ℕ → GoMap Value → GoMap Value

-- `List`
unfoldable pub list : RangeOrder → Text → ℕ → Exec InMemoryDb (List Value)
list order prefix rev s = elim s.db [
  | none ↦ (ok [], s)
  | some m ↦
      (ok (filter_map (select prefix) (order s.entropy m)), record s { entropy = s.entropy + 1 })
]

-- `Get`
unfoldable pub get : Text → Exec InMemoryDb Value
get k s = elim (find k s.db) [ some v ↦ (ok v, s) | none ↦ (err (not_found group_resource k), s) ]

-- `Put`
unfoldable pub put : Text → Text → Exec InMemoryDb (Unit {0})
put k bytes s = assign k bytes s

-- `Create`
unfoldable pub create : Text → Text → Exec InMemoryDb (Unit {0})
create k bytes s = elim (find k s.db) [
  | some _ ↦ (err (already_exists group_resource k), s)
  | none ↦ assign k bytes s
]

-- `Update`: the revision is not read.
unfoldable pub update : Text → ℤ → Text → Exec InMemoryDb (Unit {0})
update k revision bytes s = elim (find k s.db) [
  | none ↦ (err (not_found group_resource k), s)
  | some _ ↦ assign k bytes s
]

abbrev remove : Text → Option (GoMap Value) → Option (GoMap Value)
remove k none = none
remove k (some m) = some (erase k m)

-- `Delete`: the revision is not read.
unfoldable pub delete : Text → ℤ → Exec InMemoryDb (Unit {0})
delete k revision s = elim (find k s.db) [
  | none ↦ (err (not_found group_resource k), s)
  | some _ ↦ (ok tt, record s { db = remove k s.db })
]

-- `Close`
unfoldable pub close : Exec InMemoryDb (Unit {0})
close s = (ok tt, record s { db = none })

-- `*inMemoryDb` as a `storage.Storage`.
abbrev pub inmemory_storage : RangeOrder → Storage
inmemory_storage order = record {
  State = InMemoryDb;
  list = list order;
  get = get;
  put = put;
  create = create;
  update = update;
  delete = delete;
  close = close;
}
