-- ===== src/Storage/InMemory/Observed.antt =====
-- What callers of the in-memory database of pkg/storage/inmemory/client.go can observe: its mapping, and no more.
-- The order of a listing, which `range` draws at random, is forgotten by a quotient.
use mathlib.Core.List.{Perm}
use mathlib.Core.List.Perm
use mathlib.Core.Quot.{Quot, mk, sound}
use mathlib.Core.Path.{fun_ext}
use policy_server.Prelude.{ℕ, ◌≡◌, sym, ap, ◌∙◌, Option, none, some, List, [], ◌∷◌, map}
use policy_server.Prelude.Texts.{Text}
use policy_server.Result.{Result, ok}
use policy_server.Storage.{Value}
use policy_server.Storage.Contract.{under}
use policy_server.Storage.GoMap.Unique.{perm_of_lookup}
use policy_server.Storage.InMemory.{InMemoryDb, RangeOrder, list}
use policy_server.Storage.InMemory.Laws.{
  contents, IsOpen, IsOrder, list_open, contents-HasUniqueKeys,
}
use policy_server.Storage.InMemory.Refinement.{
  Command, run, mapping_of, replies, spec_step, spec_replies, step-Refines, replies-spec_replies,
}
use policy_server.Storage.InMemory.Closed.{after_all}

-- Lists, in whatever order.
abbrev pub Bag : Type 0 → Type 0
Bag A = Quot (Perm {A = A})

-- The bytes that a listing returns.
abbrev pub listed : Result (List Value) → Option (Bag Text)
listed (ok vs) = some (mk (map (λ v. v.value_data) vs))
listed _ = none

contents-Perm :
    (s t : InMemoryDb)
    → IsOpen s
    → IsOpen t
    → mapping_of s ≡ mapping_of t
    → Perm (contents s) (contents t)
contents-Perm s t o p h =
    perm_of_lookup (contents s) (contents t) (contents-HasUniqueKeys s o)
      (contents-HasUniqueKeys t p) (λ k. ap (λ m. m k) h)

-- Databases with one mapping are still open, and still have one mapping, after the same commands.
after-alike :
    (cs : List Command) (s t : InMemoryDb)
    → IsOpen s
    → IsOpen t
    → mapping_of s ≡ mapping_of t
    → IsOpen (after_all cs s)
      × IsOpen (after_all cs t)
      × (mapping_of (after_all cs s) ≡ mapping_of (after_all cs t))
after-alike [] s t o p h = (o, p, h)
after-alike (c ∷ cs) s t o p h =
    let r = step-Refines c s o in
    let q = step-Refines c t p in
    after-alike cs (run c s).1 (run c t).1 r.still_open q.still_open
      (fun_ext r.same_mapping ∙ ap (λ m. (spec_step c m).1) h ∙ sym (fun_ext q.same_mapping))

module _ (order1 order2 : RangeOrder) (lawful1 : IsOrder order1) (lawful2 : IsOrder order2) where
  list-alike :
      (prefix : Text) (rev : ℕ) (s t : InMemoryDb)
      → IsOpen s
      → IsOpen t
      → mapping_of s ≡ mapping_of t
      → listed (list order1 prefix rev s).0 ≡ listed (list order2 prefix rev t).0
  list-alike prefix rev s t o p h =
      let (vs, e, per, _) = list_open order1 lawful1 prefix rev s o in
      let (ws, f, qer, _) = list_open order2 lawful2 prefix rev t p in
      ap listed e
      ∙ ap (λ b. some b)
          (sound (
            Perm.trans per (
              Perm.trans (Perm.filter_map (under prefix) (contents-Perm s t o p h))
                (Perm.symm qer))))
      ∙ sym (ap listed f)

  -- Two open databases with one mapping from keys to bytes, whatever their clocks, the orders of
  -- their entries and the orders in which `range` visits them, answer any sequence of `Get`,
  -- `Put`, `Create`, `Update` and `Delete` calls alike, and `List` then returns the same bytes
  -- from both, in whatever order.
  pub observed_alike :
      (cs : List Command) (prefix : Text) (rev : ℕ) (s t : InMemoryDb)
      → IsOpen s
      → IsOpen t
      → mapping_of s ≡ mapping_of t
      → (replies cs s ≡ replies cs t)
        × (listed (list order1 prefix rev (after_all cs s)).0
            ≡ listed (list order2 prefix rev (after_all cs t)).0)
  observed_alike cs prefix rev s t o p h =
      let (o', p', h') = after-alike cs s t o p h in
      (
        replies-spec_replies cs s o ∙ ap (spec_replies cs) h ∙ sym (replies-spec_replies cs t p),
        list-alike prefix rev (after_all cs s) (after_all cs t) o' p' h',
      )
