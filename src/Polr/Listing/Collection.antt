-- ===== src/Polr/Listing/Collection.antt =====
-- `DeleteCollection` of pkg/api/polr.go.
use policy_server.Prelude.{
  ℕ, suc, ◌+◌, ◌*◌, ◌≡◌, refl, subst, true, false, Option, none, some, List, [], ◌∷◌, arith, ap,
}
use policy_server.Prelude.Texts.{Text, codes}
use policy_server.Result.{
  Error, Result, ok, pure, ◌>>=◌, ◌>>◌, err, panicked, continue, rename, bad_request,
}
use policy_server.Polr.{
  key_for_list, get_polr, delete_polr, polr_to_obj, delete_report, delete, delete_loop,
  delete_collection_by, delete_collection, list_polr, list, invalid_resource,
}
use policy_server.Storage.{Storage}
use policy_server.Storage.Contract.{Contract}
use policy_server.Report.{ReportList, Platform}
use policy_server.Handler.{
  WriteOptions, is_dry_run, ListOptions, ReportOf, ObjectOf, State, Handler, raise_if, call_count,
}
use policy_server.Handler.Calls.{
  Calls, Calls-pure, Calls-raise, Calls-lift, Calls-stored, Calls-broadcast, Calls-or_fail,
  Calls-bind,
}

-- The length of a list.
abbrev pub length {ℓ} : {A : Type ℓ} → List A → ℕ
length [] = 0
length (x ∷ xs) = suc (length xs)

module _ (P : Platform) (S : Storage) where
  get_polr-Calls : (name namespace : Text) → Calls P S 0 (get_polr P S name namespace)
  unfolding get_polr
  get_polr-Calls name namespace =
      Calls-bind P S 0 0 _ _ (Calls-or_fail P S 0 _ _ (Calls-stored P S _))
        λ val. Calls-or_fail P S 0 _ _ (Calls-lift P S _)

  list-Calls :
      (namespace : Text) (options : Option (ListOptions P))
      → Calls P S 0 (list P S namespace options)
  unfolding list list_polr
  list-Calls namespace options =
      Calls-bind P S 0 0 _ _
        (Calls-or_fail P S 0 _ _ (
          Calls-bind P S 0 0 _ _ (Calls-or_fail P S 0 _ _ (Calls-stored P S _))
            λ vals. Calls-or_fail P S 0 _ _ (Calls-lift P S _)))
        λ all. Calls-pure P S _

  raise_if-Calls : (e : Option Error) → Calls P S 0 (raise_if P S e)
  unfolding raise_if
  raise_if-Calls none = Calls-pure P S tt
  raise_if-Calls (some e) = Calls-raise P S e

  module _ (validate : ReportOf P → Option Error) (namespace : Text) (options : WriteOptions) where
    -- A real `Delete` that returns has called the broadcaster once.
    delete_report-Calls :
        (name : Text)
        → is_dry_run options ≡ false
        → Calls P S 1 (delete_report P S validate namespace options name)
    unfolding delete_report delete_polr
    delete_report-Calls name wet = rw wet (
        Calls-bind P S 0 1 _ _ (Calls-or_fail P S 0 _ _ (get_polr-Calls name namespace)) λ r.
          Calls-bind P S 0 1 _ _ (raise_if-Calls (invalid_resource P S (validate r))) λ _.
            Calls-bind P S 0 1 _ _
              (Calls-or_fail P S 0 _ _ (
                Calls-bind P S 0 0 _ _ (Calls-or_fail P S 0 _ _ (Calls-lift P S _))
                  λ rev. Calls-stored P S _))
              λ _. Calls-bind P S 1 0 _ _ (Calls-broadcast P S _ _) λ _. Calls-pure P S r)

    delete-Calls :
        (name : Text)
        → is_dry_run options ≡ false
        → Calls P S 1 (delete P S validate namespace options name)
    unfolding delete polr_to_obj
    delete-Calls name wet = Calls-bind P S 1 0 _ _ (delete_report-Calls name wet) λ r.
        Calls-bind P S 0 0 _ _ (Calls-lift P S _)
          λ bytes. Calls-bind P S 0 0 _ _ (Calls-lift P S _) λ u. Calls-pure P S _

  module _ (delete_one : Text → Handler P S (ObjectOf P))
      (once : (name : Text) → Calls P S 1 (delete_one name)) where
    delete_loop-Calls :
        (rs : List (ReportOf P)) → Calls P S (2 * length rs) (delete_loop P S delete_one rs)
    unfolding delete_loop
    delete_loop-Calls [] = Calls-pure P S tt
    delete_loop-Calls (r ∷ rs) =
        subst (λ n. Calls P S n (delete_loop P S delete_one (r ∷ rs))) (omega arith)
          (Calls-bind P S 1 (1 + 2 * length rs) _ _ (Calls-or_fail P S 1 _ _ (once r.name)) λ obj.
            Calls-bind P S 1 (2 * length rs) _ _ (Calls-broadcast P S _ obj)
              λ _. delete_loop-Calls rs)

    after_listing :
        (found a : ReportList P.Body) (n : ℕ) (t : State P S)
        → call_count P S t.calls ≡ n
        → ((delete_loop P S delete_one found.items >> pure found) t).0 ≡ ok a
        → call_count P S ((delete_loop P S delete_one found.items >> pure found) t).1.calls
          ≡ n + 2 * length a.items
    unfolding ◌>>=◌
    after_listing found a n t start =
        go (delete_loop P S delete_one found.items t) ((delete_loop-Calls found.items).counted t)
      where
        go :
            (y : Result (Unit {0}) × State P S)
            → ((u : Unit {0})
                → y.0 ≡ ok u
                → call_count P S y.1.calls ≡ call_count P S t.calls + 2 * length found.items)
            → (continue y (λ _. pure found)).0 ≡ ok a
            → call_count P S (continue y (λ _. pure found)).1.calls ≡ n + 2 * length a.items
        go (ok u, t') h e =
            let same : length found.items ≡ length a.items =
              ap (λ (x : Result (ReportList P.Body)). elim x [ ok b ↦ length b.items | _ ↦ 0 ]) e in
            omega (arith, h u refl, same, start)
        go (err x, t') h e = cc
        go (panicked, t') h e = cc

    collection-counted :
        (namespace : Text) (options : WriteOptions) (list_options : Option (ListOptions P))
        (s : State P S) (a : ReportList P.Body)
        → is_dry_run options ≡ false
        → (delete_collection_by P S delete_one namespace options list_options s).0 ≡ ok a
        → call_count P S
            (delete_collection_by P S delete_one namespace options list_options s).1.calls
          ≡ call_count P S s.calls + 2 * length a.items
    unfolding delete_collection_by ◌>>=◌
    collection-counted namespace options list_options s a wet =
        rw wet
          (go (list P S namespace list_options s) ((list-Calls namespace list_options).counted s))
      where
        run : Result (ReportList P.Body) × State P S → Result (ReportList P.Body) × State P S
        run x =
            continue (rename (λ _. bad_request (codes "Failed to find policy reports")) x)
              λ found. (delete_loop P S delete_one found.items >> pure found)

        go :
            (x : Result (ReportList P.Body) × State P S)
            → ((b : ReportList P.Body)
                → x.0 ≡ ok b
                → call_count P S x.1.calls ≡ call_count P S s.calls + 0)
            → (run x).0 ≡ ok a
            → call_count P S (run x).1.calls ≡ call_count P S s.calls + 2 * length a.items
        go (ok found, t) h e =
            after_listing found a (call_count P S s.calls) t (omega (arith, h found refl)) e
        go (err y, t) h e = cc
        go (panicked, t) h e = cc

  -- `DeleteCollection` that returns, and is no dry run, has called the broadcaster twice for each
  -- report that it returns as deleted.
  pub delete_collection_calls :
      (validate : ReportOf P → Option Error) (namespace : Text) (options : WriteOptions)
      (list_options : Option (ListOptions P)) (s : State P S) (gone : ReportList P.Body)
      → is_dry_run options ≡ false
      → (delete_collection P S validate namespace options list_options s).0 ≡ ok gone
      → call_count P S (delete_collection P S validate namespace options list_options s).1.calls
        ≡ call_count P S s.calls + 2 * length gone.items
  unfolding delete_collection
  delete_collection_calls validate namespace options list_options s gone wet =
      collection-counted (delete P S validate namespace options)
        (λ name. delete-Calls validate namespace options name wet) namespace options list_options s
        gone wet

module _ (P : Platform) (S : Storage) (C : Contract S) where
  -- Over a ready storage, a dry run of `DeleteCollection` removes nothing and tells no watcher.
  pub delete_collection_dry_run :
      (validate : ReportOf P → Option Error) (namespace : Text) (options : WriteOptions)
      (list_options : Option (ListOptions P)) (s : State P S)
      → C.Ready s.store
      → is_dry_run options ≡ true
      → let t = (delete_collection P S validate namespace options list_options s).1 in
        (C.entries t.store ≡ C.entries s.store) × (t.calls ≡ s.calls)
  unfolding delete_collection delete_collection_by list list_polr ◌>>=◌
  delete_collection_dry_run validate namespace options list_options s ready dry =
      let (vs, e, _, same) = C.list_lem (key_for_list P.group_version namespace) 0 s.store ready in
      rw dry (rw e (ground (arith, same)))
