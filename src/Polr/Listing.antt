-- ===== src/Polr/Listing.antt =====
-- `List` and `DeleteCollection` of pkg/api/polr.go.
pub mod Collection
pub mod Shared
use mathlib.Core.List.{filter_map, Perm, append-nil, append_assoc}
use mathlib.Core.List.Perm
use policy_server.Prelude.{
  ℕ, zero, ◌≡◌, ◌≢◌, refl, sym, ap, ◌∙◌, ◌⊎◌, inl, inr, Bool, true, false, Bool-cases, Option, none,
  some, List, [], ◌∷◌, ◌++◌, map, arith, if◌then◌else◌,
}
use policy_server.Prelude.Texts.{Text, codes, NoSlash, has_prefix}
use policy_server.Result.{
  Error, Result, ok, err, panicked, bad_request, wrapped, or_fail, pure, lift, ◌>>=◌, ◌>>◌,
}
use policy_server.Storage.{Value, Storage}
use policy_server.Storage.Contract.{Contract, under}
use policy_server.Storage.GoMap.{GoMap, lookup}
use policy_server.Report.{Report, ReportList, Platform, report}
use policy_server.Handler.{
  WriteOptions, is_dry_run, ListOptions, ReportOf, ObjectOf, State, stored, decode, decode_list,
  decode_loop, selector_of, select_loop, listing,
}
use policy_server.Polr.{key, key_for_list, list_polr, list}
use policy_server.Polr.Keys.{has_prefix-key}

module _ (P : Platform) where
  -- The reports that the selector accepts, in their order.
  abbrev pub matching : P.Selector → List (ReportOf P) → List (ReportOf P)
  matching selector [] = []
  matching selector (r ∷ rs) =
      let rest = matching selector rs in if P.matches selector r.labels then r ∷ rest else rest

  -- Some report has nil labels.
  abbrev pub some_unlabelled : List (ReportOf P) → Bool
  some_unlabelled [] = false
  some_unlabelled (r ∷ rs) = elim r.labels [ none ↦ true | some _ ↦ some_unlabelled rs ]

  select_loop_lem :
      (selector : P.Selector) (all : ReportList P.Body) (rs kept : List (ReportOf P))
      → select_loop P selector all rs kept
        ≡ (if some_unlabelled rs then all else listing P (kept ++ matching selector rs))
  unfolding select_loop
  select_loop_lem selector all [] kept = rw append-nil refl
  select_loop_lem selector all (r ∷ rs) kept = ground (
    arith,
    select_loop_lem selector all rs (kept ++ (r ∷ [])),
    select_loop_lem selector all rs kept,
    append_assoc kept (r ∷ []) (matching selector rs),
  )

  -- A list of one value needs no second round of the decoder's variable.
  pub decode_list-one :
      (v : Value) (r : ReportOf P)
      → decode P v.value_data ≡ ok r
      → decode_list P (v ∷ []) ≡ ok (listing P (r ∷ []))
  unfolding decode decode_list
  decode_list-one v r h = ground arith

module _ (P : Platform) (S : Storage) where
  -- If `listPolr` returns a list, `List` returns the reports of it that the selector accepts, in
  -- their order; but if one report of the list has nil labels it returns the whole list, whatever
  -- the selector.
  pub list_selects :
      (namespace : Text) (options : Option (ListOptions P)) (all : ReportList P.Body)
      (s t : State P S)
      → list_polr P S namespace s ≡ (ok all, t)
      → list P S namespace options s ≡ (
        ok (
            if some_unlabelled P all.items
            then all
            else listing P (matching P (selector_of P options) all.items)),
        t,
      )
  unfolding list ◌>>=◌
  list_selects namespace options all s t h = rw h (
      ap (λ (l : ReportList P.Body). (ok l, t))
        (select_loop_lem P (selector_of P options) all all.items []))

module _ (P : Platform) (S : Storage) (C : Contract S) where
  -- Every stored key is the key of a report with a namespace.
  abbrev pub AllNamespaced : GoMap Text → Type 0
  AllNamespaced [] = Unit
  AllNamespaced ((k, _) ∷ m) =
      ((name : Text) × (namespace : Text) × (k ≡ key P.group_version name namespace)
        × NoSlash namespace
        × (namespace ≢ []))
      × AllNamespaced m

  none_under :
      (m : GoMap Text)
      → AllNamespaced m
      → filter_map (under (key_for_list P.group_version [])) m ≡ []
  unfolding filter_map
  none_under [] h = refl
  none_under ((k, d) ∷ m) ((name, namespace, e, plain, named), h) =
      let outside : has_prefix k (key_for_list P.group_version []) ≡ false =
        elim (Bool-cases (has_prefix k (key_for_list P.group_version []))) [
          | inl p ↦
              absurd
                (named ((has_prefix-key P.group_version name namespace [] plain tt).0 (rw e at p)))
          | inr p ↦ p
        ] in
      rw outside (none_under m h)

  nothing_listed : (vs : List Value) → Perm (map (λ v. v.value_data) vs) [] → vs ≡ []
  nothing_listed [] p = refl
  nothing_listed (v ∷ vs) p = cc (Perm.eq-nil p)

  -- Over a ready storage where every stored report has a slash-free namespace, a request for all
  -- namespaces, whose context has the empty namespace, lists nothing.
  pub list_all_namespaces :
      (options : Option (ListOptions P)) (s : State P S)
      → C.Ready s.store
      → AllNamespaced (C.entries s.store)
      → (list P S [] options s).0 ≡ ok (listing P [])
  unfolding list list_polr decode_list select_loop ◌>>=◌
  list_all_namespaces options s ready h =
      let (vs, e, perm, _) = C.list_lem (key_for_list P.group_version []) 0 s.store ready in
      let empty : vs ≡ [] = nothing_listed vs (rw (none_under (C.entries s.store) h) at perm) in
      rw e (rw empty refl)
