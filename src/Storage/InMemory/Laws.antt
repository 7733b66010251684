-- ===== src/Storage/InMemory/Laws.antt =====
-- The in-memory database of pkg/storage/inmemory/client.go is a finite map.
use mathlib.Core.List.{filter_map, Perm}
use mathlib.Core.List.Perm
use policy_server.Prelude.{
  ap, ℕ, ◌≡◌, refl, sym, ◌∙◌, ◌⊎◌, inl, inr, Option, none, some, List, [], ◌∷◌, map, arith,
  if◌then◌else◌,
}
use policy_server.Prelude.Texts.{Text, text_eq}
use policy_server.Result.{ok, err, not_found, already_exists}
use policy_server.Strconv.{ℤ}
use policy_server.Storage.{Value}
use policy_server.Storage.Contract.{Contract, under}
use policy_server.Storage.GoMap.{
  GoMap, lookup, insert, erase, HasUniqueKeys, lookup-insert, lookup-erase, insert-HasUniqueKeys,
  erase-HasUniqueKeys,
}
use policy_server.Storage.InMemory.{
  InMemoryDb, RangeOrder, select, remove, find, assign, list, get, create, update, delete,
  inmemory_storage, group_resource,
}

abbrev data_of : Text × Value → Text × Text
data_of (k, v) = (k, v.value_data)

abbrev contents_of : Option (GoMap Value) → GoMap Text
contents_of none = []
contents_of (some m) = map data_of m

-- The keys with their bytes.
abbrev pub contents : InMemoryDb → GoMap Text
contents s = contents_of s.db

-- The map has been made, has not been closed, and holds each key once.
pub record IsOpen (s : InMemoryDb) : Type 0 where
  pub table : GoMap Value
  pub opened : s.db ≡ some table
  pub unique : HasUniqueKeys table

abbrev bytes_of : Option Value → Option Text
bytes_of none = none
bytes_of (some v) = some v.value_data

lookup-map : (k : Text) (m : GoMap Value) → lookup k (map data_of m) ≡ bytes_of (lookup k m)
unfolding lookup
lookup-map k [] = refl
lookup-map k ((j, v) ∷ m) = ground (arith, lookup-map k m)

lookup-contents :
    (k : Text) (db : Option (GoMap Value)) → lookup k (contents_of db) ≡ bytes_of (find k db)
unfolding find lookup
lookup-contents k none = refl
lookup-contents k (some m) = lookup-map k m

bytes_of-some :
    (d : Text) (x : Option Value)
    → bytes_of x ≡ some d
    → (v : Value) × (x ≡ some v) × (v.value_data ≡ d)
bytes_of-some d none h = elim (absurd {A = ⊥} (cc)) [ ]
bytes_of-some d (some v) h = (v, refl, cc)

bytes_of-none : (x : Option Value) → bytes_of x ≡ none → x ≡ none
bytes_of-none none h = refl
bytes_of-none (some v) h = cc

module _ (k : Text) (s : InMemoryDb) where
  pub present_value :
      (d : Text)
      → lookup k (contents s) ≡ some d
      → (v : Value) × (find k s.db ≡ some v) × (v.value_data ≡ d)
  present_value d h = bytes_of-some d (find k s.db) (sym (lookup-contents k s.db) ∙ h)

  pub absent_value : lookup k (contents s) ≡ none → find k s.db ≡ none
  absent_value h = bytes_of-none (find k s.db) (sym (lookup-contents k s.db) ∙ h)

  pub get_present :
      (d : Text)
      → lookup k (contents s) ≡ some d
      → (v : Value) × (get k s ≡ (ok v, s)) × (v.value_data ≡ d)
  unfolding get
  get_present d h = let (v, e, p) = present_value d h in (v, rw (e, get) refl, p)

  pub get_absent : lookup k (contents s) ≡ none → get k s ≡ (err (not_found group_resource k), s)
  unfolding get
  get_absent h = rw (absent_value h, get) refl

-- A write to an open database returns no error, and changes the bytes of its own key only.
module _ (k d : Text) (s : InMemoryDb) (o : IsOpen s) where
  pub assign_open :
      ((assign k d s).0 ≡ ok tt)
      × ((j : Text)
          → lookup j (contents (assign k d s).1)
            ≡ (if text_eq k j then some d else lookup j (contents s)))
  unfolding assign
  assign_open = rw o.opened (
    refl,
    λ j.
        rw (lookup-map, lookup-map)
          (ground (
            arith,
            lookup-insert k j (record { key = k; value_data = d; modified = s.clock s.reads })
                o.table,
          )),
  )

  pub assign-IsOpen : IsOpen (assign k d s).1
  unfolding assign
  assign-IsOpen = rw o.opened (record {
    table = insert k (record { key = k; value_data = d; modified = s.clock s.reads }) o.table;
    opened = refl;
    unique = insert-HasUniqueKeys k _ o.table o.unique;
  })

-- `Create` refuses a key that is there, and changes nothing.
pub create_absent : (k d : Text) (s : InMemoryDb) → find k s.db ≡ none → create k d s ≡ assign k d s
unfolding create
create_absent k d s h = rw (h, create) refl

pub create_again :
    (k d : Text) (s : InMemoryDb) (v : Value)
    → find k s.db ≡ some v
    → create k d s ≡ (err (already_exists group_resource k), s)
unfolding create
create_again k d s v h = rw (h, create) refl

pub update_absent :
    (k d : Text) (r : ℤ) (s : InMemoryDb)
    → find k s.db ≡ none
    → update k r d s ≡ (err (not_found group_resource k), s)
unfolding update
update_absent k d r s h = rw (h, update) refl

pub update_present :
    (k d : Text) (r : ℤ) (s : InMemoryDb) (v : Value)
    → find k s.db ≡ some v
    → update k r d s ≡ assign k d s
unfolding update
update_present k d r s v h = rw (h, update) refl

pub delete_absent :
    (k : Text) (r : ℤ) (s : InMemoryDb)
    → find k s.db ≡ none
    → delete k r s ≡ (err (not_found group_resource k), s)
unfolding delete
delete_absent k r s h = rw (h, delete) refl

pub delete_present :
    (k : Text) (r : ℤ) (s : InMemoryDb) (v : Value)
    → find k s.db ≡ some v
    → delete k r s ≡ (ok tt, record s { db = remove k s.db })
unfolding delete
delete_present k r s v h = rw (h, delete) refl

module _ (k : Text) (s : InMemoryDb) (o : IsOpen s) where
  pub lookup-contents-remove :
      (j : Text)
      → lookup j (contents (record s { db = remove k s.db }))
        ≡ (if text_eq k j then none else lookup j (contents s))
  lookup-contents-remove j =
      rw o.opened (rw (lookup-map, lookup-map) (ground (arith, lookup-erase k j o.table o.unique)))

  remove-IsOpen : IsOpen (record s { db = remove k s.db })
  remove-IsOpen = rw o.opened (record {
    table = erase k o.table;
    opened = refl;
    unique = erase-HasUniqueKeys k o.table o.unique;
  })

-- A key of an open database is there or not.
find-cases :
    (k : Text) (s : InMemoryDb) → (find k s.db ≡ none) ⊎ ((v : Value) × (find k s.db ≡ some v))
find-cases k s = go (find k s.db) refl
  where
    go :
        (x : Option Value)
        → find k s.db ≡ x
        → (find k s.db ≡ none) ⊎ ((v : Value) × (find k s.db ≡ some v))
    go none e = inl e
    go (some v) e = inr (v, e)

pub create-IsOpen : (k d : Text) (s : InMemoryDb) → IsOpen s → IsOpen (create k d s).1
create-IsOpen k d s o = elim (find-cases k s) [
  | inl e ↦ rw (create_absent k d s e) (assign-IsOpen k d s o)
  | inr (v, e) ↦ rw (create_again k d s v e) o
]

pub update-IsOpen : (k d : Text) (r : ℤ) (s : InMemoryDb) → IsOpen s → IsOpen (update k r d s).1
update-IsOpen k d r s o = elim (find-cases k s) [
  | inl e ↦ rw (update_absent k d r s e) o
  | inr (v, e) ↦ rw (update_present k d r s v e) (assign-IsOpen k d s o)
]

pub delete-IsOpen : (k : Text) (r : ℤ) (s : InMemoryDb) → IsOpen s → IsOpen (delete k r s).1
delete-IsOpen k r s o = elim (find-cases k s) [
  | inl e ↦ rw (delete_absent k r s e) o
  | inr (v, e) ↦ rw (delete_present k r s v e) (remove-IsOpen k s o)
]

map-HasUniqueKeys : (m : GoMap Value) → HasUniqueKeys m → HasUniqueKeys (map data_of m)
map-HasUniqueKeys [] u = tt
map-HasUniqueKeys ((k, v) ∷ m) (fresh, u) =
    (lookup-map k m ∙ ap bytes_of fresh, map-HasUniqueKeys m u)

pub contents-HasUniqueKeys : (s : InMemoryDb) → IsOpen s → HasUniqueKeys (contents s)
contents-HasUniqueKeys s o = rw o.opened (map-HasUniqueKeys o.table o.unique)

-- `range` visits every entry of the map once, in any order.
abbrev pub IsOrder : RangeOrder → Type 0
IsOrder order = (n : ℕ) (m : GoMap Value) → Perm (order n m) m

select-under :
    (prefix : Text) (m : GoMap Value)
    → map (λ v. v.value_data) (filter_map (select prefix) m)
      ≡ filter_map (under prefix) (map data_of m)
unfolding filter_map
select-under prefix [] = refl
select-under prefix ((k, v) ∷ m) = ground (arith, select-under prefix m)

module _ (order : RangeOrder) (lawful : IsOrder order) where
  pub list_open :
      (prefix : Text) (rev : ℕ) (s : InMemoryDb)
      → IsOpen s
      → (vs : List Value) × ((list order prefix rev s).0 ≡ ok vs)
        × Perm (map (λ v. v.value_data) vs) (filter_map (under prefix) (contents s))
        × (contents (list order prefix rev s).1 ≡ contents s)
  unfolding list
  list_open prefix rev s o = rw o.opened (
    filter_map (select prefix) (order s.entropy o.table),
    refl,
    rw (← select-under prefix o.table)
        (Perm.map _ (Perm.filter_map (select prefix) (lawful s.entropy o.table))),
    refl,
  )

  pub list-IsOpen :
      (prefix : Text) (rev : ℕ) (s : InMemoryDb) → IsOpen s → IsOpen (list order prefix rev s).1
  unfolding list
  list-IsOpen prefix rev s o =
      rw o.opened (record { table = o.table; opened = refl; unique = o.unique })

  -- The in-memory database implements the finite map that the handlers rely on.
  abbrev pub inmemory-Contract : Contract (inmemory_storage order)
  inmemory-Contract = record {
    Ready = IsOpen;
    entries = contents;
    missing = not_found group_resource;
    present = already_exists group_resource;
    get_found = λ k d s o h. get_present k s d h;
    get_missing = λ k s o h. get_absent k s h;
    create_new = λ k d s o h. rw (create_absent k d s (absent_value k s h)) (assign_open k d s o);
    create_present =
        λ k d old s o h. let (v, e, _) = present_value k s old h in create_again k d s v e;
    update_found = λ k d old r s o h.
        let (v, e, _) = present_value k s old h in
        rw (update_present k d r s v e) (assign_open k d s o);
    update_missing = λ k d r s o h. update_absent k d r s (absent_value k s h);
    delete_found = λ k old r s o h.
        let (v, e, _) = present_value k s old h in
        rw (delete_present k r s v e) (refl, lookup-contents-remove k s o);
    delete_missing = λ k r s o h. delete_absent k r s (absent_value k s h);
    list_lem = list_open;
    create-Ready = create-IsOpen;
    update-Ready = update-IsOpen;
    delete-Ready = delete-IsOpen;
    list-Ready = list-IsOpen;
  }
