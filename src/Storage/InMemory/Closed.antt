-- ===== src/Storage/InMemory/Closed.antt =====
-- The in-memory database of pkg/storage/inmemory/client.go after `Close`, which leaves a nil map.
use policy_server.Prelude.{ℕ, ◌≡◌, refl, ap, none, List, [], ◌∷◌, map}
use policy_server.Prelude.Texts.{Text}
use policy_server.Result.{ok, not_found}
use policy_server.Storage.InMemory.{
  InMemoryDb, RangeOrder, assign, find, list, get, put, create, update, delete, close,
  group_resource,
}
use policy_server.Storage.InMemory.Refinement.{
  Command, read, write, add, replace, drop, Reply, failed, crashed, run, replies,
}

-- What a nil map answers: it can be read, and a write to it panics.
unfoldable pub nil_reply : Command → Reply
nil_reply (read k) = failed (not_found group_resource k)
nil_reply (write k d) = crashed
nil_reply (add k d) = crashed
nil_reply (replace k r d) = failed (not_found group_resource k)
nil_reply (drop k r) = failed (not_found group_resource k)

-- The state after a sequence of commands.
abbrev pub after_all : List Command → InMemoryDb → InMemoryDb
after_all [] s = s
after_all (c ∷ cs) s = after_all cs (run c s).1

run-nil : (c : Command) (s : InMemoryDb) → s.db ≡ none → run c s ≡ (nil_reply c, s)
unfolding nil_reply assign find get put create update delete
run-nil (read k) s e = rw e refl
run-nil (write k d) s e = rw e refl
run-nil (add k d) s e = rw e refl
run-nil (replace k r d) s e = rw e refl
run-nil (drop k r) s e = rw e refl

replies-nil :
    (cs : List Command) (s : InMemoryDb)
    → s.db ≡ none
    → (replies cs s ≡ map nil_reply cs) × (after_all cs s ≡ s)
replies-nil [] s e = (refl, refl)
replies-nil (c ∷ cs) s e =
    let (same, stays) = replies-nil cs s e in
    rw (run-nil c s e) (ap (λ rs. nil_reply c ∷ rs) same, stays)

-- After `Close`, in any sequence of calls, `Get`, `Update` and `Delete` answer NotFound and `Put`
-- and `Create` panic; after them `List` finds nothing and the state is still the closed one.
pub closed_replies :
    (cs : List Command) (order : RangeOrder) (prefix : Text) (rev : ℕ) (s : InMemoryDb)
    → (replies cs (close s).1 ≡ map nil_reply cs)
      × (list order prefix rev (after_all cs (close s).1) ≡ (ok [], (close s).1))
unfolding close list
closed_replies cs order prefix rev s =
    let (same, stays) = replies-nil cs (close s).1 refl in (same, rw stays refl)
