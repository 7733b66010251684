-- ===== src/Storage/GoMap.antt =====
-- A Go `map[string]V`: an association list with one entry for each key. Its order carries no
-- meaning; a `range` loop takes the entries in an order of its own.
pub mod Unique
use policy_server.Prelude.{◌≡◌, refl, Option, none, some, List, [], ◌∷◌, arith, if◌then◌else◌}
use policy_server.Prelude.Texts.{Text, text_eq, text_eq_iff}

abbrev pub GoMap : Type 0 → Type 0
GoMap V = List (Text × V)

module _ {V : Type 0} where
  -- `v, ok := m[k]`
  unfoldable pub lookup : Text → GoMap V → Option V
  lookup k [] = none
  lookup k ((j, v) ∷ m) = if text_eq j k then some v else lookup k m

  -- `m[k] = v`
  unfoldable pub insert : Text → V → GoMap V → GoMap V
  insert k v [] = (k, v) ∷ []
  insert k v ((j, w) ∷ m) = if text_eq j k then (j, v) ∷ m else (j, w) ∷ insert k v m

  -- `delete(m, k)`
  unfoldable pub erase : Text → GoMap V → GoMap V
  erase k [] = []
  erase k ((j, w) ∷ m) = let rest = erase k m in if text_eq j k then m else (j, w) ∷ rest

  -- No two entries have one key.
  abbrev pub HasUniqueKeys : GoMap V → Type 0
  HasUniqueKeys [] = Unit
  HasUniqueKeys ((k, _) ∷ m) = (lookup k m ≡ none) × HasUniqueKeys m

  pub lookup-insert :
      (k j : Text) (v : V) (m : GoMap V)
      → lookup j (insert k v m) ≡ (if text_eq k j then some v else lookup j m)
  unfolding lookup insert
  lookup-insert k j v [] = refl
  lookup-insert k j v ((i, w) ∷ m) =
      ground (arith, text_eq_iff k j, text_eq_iff i k, text_eq_iff i j, lookup-insert k j v m)

  pub lookup-erase :
      (k j : Text) (m : GoMap V)
      → HasUniqueKeys m
      → lookup j (erase k m) ≡ (if text_eq k j then none else lookup j m)
  unfolding lookup erase
  lookup-erase k j [] _ = ground arith
  lookup-erase k j ((i, w) ∷ m) (fresh, u) =
      ground (arith, text_eq_iff k j, text_eq_iff i k, text_eq_iff i j, lookup-erase k j m u)

  pub insert-HasUniqueKeys :
      (k : Text) (v : V) (m : GoMap V) → HasUniqueKeys m → HasUniqueKeys (insert k v m)
  unfolding insert lookup
  insert-HasUniqueKeys k v [] _ = (refl, tt)
  insert-HasUniqueKeys k v ((i, w) ∷ m) (fresh, u) =
      ground (
        arith,
        text_eq_iff k i,
        text_eq_iff i k,
        lookup-insert k i v m,
        insert-HasUniqueKeys k v m u,
      )

  pub erase-HasUniqueKeys : (k : Text) (m : GoMap V) → HasUniqueKeys m → HasUniqueKeys (erase k m)
  unfolding erase
  erase-HasUniqueKeys k [] _ = tt
  erase-HasUniqueKeys k ((i, w) ∷ m) (fresh, u) =
      ground (arith, text_eq_iff k i, lookup-erase k i m u, erase-HasUniqueKeys k m u)
