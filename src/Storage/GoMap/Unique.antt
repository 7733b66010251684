-- ===== src/Storage/GoMap/Unique.antt =====
-- Maps with one entry for each key are the same entries in some order if they answer alike.
use mathlib.Core.List.{Perm}
use mathlib.Core.List.Perm
use policy_server.Prelude.{◌≡◌, refl, sym, ◌∙◌, inl, inr, Bool-cases, none, some, [], ◌∷◌, arith}
use policy_server.Prelude.Texts.{Text, text_eq, text_eq_iff, text_eq_refl}
use policy_server.Storage.GoMap.{
  GoMap, lookup, erase, HasUniqueKeys, lookup-erase, erase-HasUniqueKeys,
}

module _ {V : Type 0} where
  erase-Perm : (k : Text) (v : V) (m : GoMap V) → lookup k m ≡ some v → Perm m ((k, v) ∷ erase k m)
  unfolding lookup erase
  erase-Perm k v [] e = absurd (cc)
  erase-Perm k v ((j, w) ∷ m) e = elim (Bool-cases (text_eq j k)) [
    | inl same ↦
        let w_is : w ≡ v = ground (arith, e, same) in
        rw (same, (text_eq_iff j k).0 same, w_is) (Perm.refl _)
    | inr other ↦
        let rest : lookup k m ≡ some v = ground (arith, e, other) in
        rw other (Perm.trans (Perm.cons (j, w) (erase-Perm k v m rest)) (Perm.swap (k, v) (j, w) _))
  ]

  empty_of_lookup : (m : GoMap V) → ((k : Text) → none ≡ lookup k m) → Perm [] m
  unfolding lookup
  empty_of_lookup [] h = Perm.refl []
  empty_of_lookup ((k, v) ∷ m) h = let e = h k in absurd (ground (arith, text_eq_refl k, e))

  pub perm_of_lookup :
      (m n : GoMap V)
      → HasUniqueKeys m
      → HasUniqueKeys n
      → ((k : Text) → lookup k m ≡ lookup k n)
      → Perm m n
  unfolding lookup
  perm_of_lookup [] n u v h = empty_of_lookup n h
  perm_of_lookup ((k, d) ∷ m) n (fresh, u) v h =
      let there : lookup k n ≡ some d = sym (h k) ∙ rw (text_eq_refl k) refl in
      Perm.trans
        (Perm.cons (k, d) (perm_of_lookup m (erase k n) u (erase-HasUniqueKeys k n v) alike))
        (Perm.symm (erase-Perm k d n there))
    where
      alike : (j : Text) → lookup j m ≡ lookup j (erase k n)
      alike j = ground (arith, lookup-erase k j n v, h j, text_eq_iff k j, fresh)
