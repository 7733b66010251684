-- ===== src/Polr/Listing/Shared.antt =====
-- The variable that `listPolr` and `listCpolr` of pkg/api decode every value into: its label map is one
-- map, which all the copies of the variable share.
use mathlib.Core.List.{Memᴰ, append_assoc, append-nil}
use policy_server.Prelude.{
  ◌≡◌, refl, sym, ◌∙◌, subst, Option, some, List, [], ◌∷◌, ◌++◌, map, arith,
}
use policy_server.Prelude.Texts.{Text}
use policy_server.Result.{Result, ok, err, panicked}
use policy_server.Storage.{Value}
use policy_server.Storage.GoMap.{GoMap}
use policy_server.Report.{Platform, ReportList}
use policy_server.Handler.{ReportOf, decode_list, decode_loop, listing}

-- How `json.Unmarshal` treats a map in the variable: the labels of a report are those of the map that
-- the variable points to, and a value does not replace a map that is there, but adds to it.
pub record ReusesMaps (P : Platform) (vs : List Value) : Type 1 where
  pub Address : Type 0
  pub address : P.Cell → Option Address
  pub labels_at : Address → P.Heap → GoMap Text
  pub labels_of :
      (heap : P.Heap) (cell : P.Cell) (at : Address)
      → address cell ≡ some at
      → (P.view heap cell).labels ≡ some (labels_at at heap)
  pub reused :
      (v : Value)
      → Memᴰ v vs
      → (cell cell' : P.Cell) (heap heap' : P.Heap) (at : Address) → address cell ≡ some at
      → P.unmarshal v.value_data cell heap ≡ ok (cell', heap')
      → address cell' ≡ some at

-- There is one report for each value, and each has these labels.
abbrev pub Labelled : (P : Platform) → GoMap Text → List Value → List (ReportOf P) → Type 0
Labelled P m [] [] = Unit
Labelled P m (v ∷ vs) (r ∷ rs) = (r.labels ≡ some m) × Labelled P m vs rs
Labelled P m _ _ = ⊥

module _ (P : Platform) (all : List Value) (maps : ReusesMaps P all) where
  -- There is one cell for each value, and each points to this map.
  abbrev Addressed : maps.Address → List Value → List P.Cell → Type 0
  Addressed at [] [] = Unit
  Addressed at (v ∷ vs) (c ∷ cs) = (maps.address c ≡ some at) × Addressed at vs cs
  Addressed at _ _ = ⊥

  record Decoded (at : maps.Address) (vs : List Value) (items cells : List P.Cell) : Type 0 where
    more : List P.Cell
    joined : cells ≡ items ++ more
    addressed : Addressed at vs more

  decode_loop-Decoded :
      (vs : List Value) (cell : P.Cell) (heap heap' : P.Heap) (items cells : List P.Cell)
      (at : maps.Address)
      → ((v : Value) → Memᴰ v vs → Memᴰ v all)
      → maps.address cell ≡ some at
      → decode_loop P vs cell heap items ≡ ok (cells, heap')
      → Decoded at vs items cells
  unfolding decode_loop
  decode_loop-Decoded [] cell heap heap' items cells at part points e = record {
    more = [];
    joined = rw append-nil (cc);
    addressed = tt;
  }
  decode_loop-Decoded (v ∷ vs) cell heap heap' items cells at part points e =
      go
        (λ c h.
          decode_loop-Decoded vs c h heap' (items ++ (c ∷ [])) cells at λ w m. part w (Memᴰ.tail m))
        (P.unmarshal v.value_data cell heap) refl e
    where
      go :
          ((c : P.Cell) (h : P.Heap)
            → maps.address c ≡ some at
            → decode_loop P vs c h (items ++ (c ∷ [])) ≡ ok (cells, heap')
            → Decoded at vs (items ++ (c ∷ [])) cells)
          → (x : Result (P.Cell × P.Heap)) → P.unmarshal v.value_data cell heap ≡ x
          → (elim x [
            | ok (c, h) ↦ decode_loop P vs c h (items ++ (c ∷ []))
            | err y ↦ err y
            | panicked ↦ panicked
          ])
            ≡ ok (cells, heap')
          → Decoded at (v ∷ vs) items cells
      go again (ok (c, h)) read e =
          let same = maps.reused v (part v (Memᴰ.head refl)) cell c heap h at points read in
          let d = again c h same e in
          record {
            more = c ∷ d.more;
            joined = d.joined ∙ append_assoc items (c ∷ []) d.more;
            addressed = (same, d.addressed);
          }
      go again (err y) read e = absurd (cc)
      go again panicked read e = absurd (cc)

  seen-Labelled :
      (vs : List Value) (cells : List P.Cell) (heap : P.Heap) (at : maps.Address)
      → Addressed at vs cells
      → Labelled P (maps.labels_at at heap) vs (map (P.view heap) cells)
  seen-Labelled [] [] heap at a = tt
  seen-Labelled (v ∷ vs) (c ∷ cs) heap at (p, a) =
      (maps.labels_of heap c at p, seen-Labelled vs cs heap at a)
  seen-Labelled [] (c ∷ cs) heap at a = elim a [ ]
  seen-Labelled (v ∷ vs) [] heap at a = elim a [ ]

module _ (P : Platform) where
  abbrev seen : Result (List P.Cell × P.Heap) → Result (ReportList P.Body)
  seen (ok (cells, h)) = ok (listing P (map (P.view h) cells))
  seen (err y) = err y
  seen panicked = panicked

  decode_list-first :
      (v : Value) (vs : List Value) (cell : P.Cell) (heap : P.Heap)
      → P.unmarshal v.value_data P.zero_cell P.empty_heap ≡ ok (cell, heap)
      → decode_list P (v ∷ vs) ≡ seen (decode_loop P vs cell heap (cell ∷ []))
  unfolding decode_list decode_loop
  decode_list-first v vs cell heap read = ground (arith, read)

  -- If the decoder keeps a label map that is in its variable and adds to it, as `json.Unmarshal`
  -- does, and the first value leaves a label map there, then in a list that decodes, which has one
  -- report for each value, all reports show one and the same labels, whatever labels their own
  -- values have.
  pub decode_list_shares :
      (v : Value) (vs : List Value) (maps : ReusesMaps P vs) (cell : P.Cell) (heap : P.Heap)
      (at : maps.Address) (l : ReportList P.Body)
      → P.unmarshal v.value_data P.zero_cell P.empty_heap ≡ ok (cell, heap)
      → maps.address cell ≡ some at
      → decode_list P (v ∷ vs) ≡ ok l
      → (m : GoMap Text) × Labelled P m (v ∷ vs) l.items
  decode_list_shares v vs maps cell heap at l read points e =
      go (decode_loop P vs cell heap (cell ∷ [])) refl
        (sym (decode_list-first v vs cell heap read) ∙ e)
    where
      go :
          (x : Result (List P.Cell × P.Heap))
          → decode_loop P vs cell heap (cell ∷ []) ≡ x
          → seen x ≡ ok l
          → (m : GoMap Text) × Labelled P m (v ∷ vs) l.items
      go (ok (cells, h)) f e =
          let d =
            decode_loop-Decoded P vs maps vs cell heap h (cell ∷ []) cells at (λ w m. m) points f in
          let whole : Labelled P (maps.labels_at at h) (v ∷ vs) (map (P.view h) cells) =
            rw d.joined (
              maps.labels_of h cell at points,
              seen-Labelled P vs maps vs d.more h at d.addressed,
            ) in
          (
            maps.labels_at at h,
            subst
                (λ (k : Result (ReportList P.Body)). elim k [
                  | ok l' ↦ Labelled P (maps.labels_at at h) (v ∷ vs) l'.items
                  | _ ↦ Unit
                ])
                e whole,
          )
      go (err y) f e = absurd (cc)
      go panicked f e = absurd (cc)
