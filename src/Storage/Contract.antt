-- ===== src/Storage/Contract.antt =====
-- The contract of a storage: it is a finite map from keys to bytes.
use mathlib.Core.List.{filter_map, Perm}
use policy_server.Prelude.{ℕ, ◌≡◌, Option, none, some, List, map, if◌then◌else◌}
use policy_server.Prelude.Texts.{Text, text_eq, has_prefix}
use policy_server.Result.{Error, ok, err}
use policy_server.Strconv.{ℤ}
use policy_server.Storage.{Value, Storage}
use policy_server.Storage.GoMap.{GoMap, lookup}

abbrev pub under : Text → Text × Text → Option Text
under prefix (k, d) = if has_prefix k prefix then some d else none

-- `entries` is the abstract map, and `Ready` the states in which the contract holds.
pub record Contract (S : Storage) : Type 1 where
  pub Ready : S.State → Type 0
  pub entries : S.State → GoMap Text
  pub missing : Text → Error
  pub present : Text → Error
  pub get_found :
      (k d : Text) (s : S.State)
      → Ready s
      → lookup k (entries s) ≡ some d
      → (v : Value) × (S.get k s ≡ (ok v, s)) × (v.value_data ≡ d)
  pub get_missing :
      (k : Text) (s : S.State)
      → Ready s
      → lookup k (entries s) ≡ none
      → S.get k s ≡ (err (missing k), s)
  pub create_new :
      (k d : Text) (s : S.State)
      → Ready s
      → lookup k (entries s) ≡ none
      → ((S.create k d s).0 ≡ ok tt)
        × ((j : Text)
            → lookup j (entries (S.create k d s).1)
              ≡ (if text_eq k j then some d else lookup j (entries s)))
  pub create_present :
      (k d old : Text) (s : S.State)
      → Ready s
      → lookup k (entries s) ≡ some old
      → S.create k d s ≡ (err (present k), s)
  pub update_found :
      (k d old : Text) (r : ℤ) (s : S.State)
      → Ready s
      → lookup k (entries s) ≡ some old
      → ((S.update k r d s).0 ≡ ok tt)
        × ((j : Text)
            → lookup j (entries (S.update k r d s).1)
              ≡ (if text_eq k j then some d else lookup j (entries s)))
  pub update_missing :
      (k d : Text) (r : ℤ) (s : S.State)
      → Ready s
      → lookup k (entries s) ≡ none
      → S.update k r d s ≡ (err (missing k), s)
  pub delete_found :
      (k old : Text) (r : ℤ) (s : S.State)
      → Ready s
      → lookup k (entries s) ≡ some old
      → ((S.delete k r s).0 ≡ ok tt)
        × ((j : Text)
            → lookup j (entries (S.delete k r s).1)
              ≡ (if text_eq k j then none else lookup j (entries s)))
  pub delete_missing :
      (k : Text) (r : ℤ) (s : S.State)
      → Ready s
      → lookup k (entries s) ≡ none
      → S.delete k r s ≡ (err (missing k), s)
  -- A listing has the values under the prefix, in some order, and stores nothing.
  pub list_lem :
      (prefix : Text) (rev : ℕ) (s : S.State)
      → Ready s
      → (vs : List Value) × ((S.list prefix rev s).0 ≡ ok vs)
        × Perm (map (λ v. v.value_data) vs) (filter_map (under prefix) (entries s))
        × (entries (S.list prefix rev s).1 ≡ entries s)
  pub create-Ready : (k d : Text) (s : S.State) → Ready s → Ready (S.create k d s).1
  pub update-Ready : (k d : Text) (r : ℤ) (s : S.State) → Ready s → Ready (S.update k r d s).1
  pub delete-Ready : (k : Text) (r : ℤ) (s : S.State) → Ready s → Ready (S.delete k r s).1
  pub list-Ready : (k : Text) (r : ℕ) (s : S.State) → Ready s → Ready (S.list k r s).1
