-- ===== src/Tests/Stores.antt =====
-- The theorems on the in-memory database, at concrete inputs.
use mathlib.Core.List.{reverse, reverse_perm}
use policy_server.Storage.InMemory.Laws.{IsOrder, IsOpen}
use policy_server.Storage.InMemory.Observed.{listed, observed_alike}
use policy_server.Prelude.{some, refl, map, List, ◌≡◌, [], ◌∷◌}
use policy_server.Prelude.Texts.{codes}
use policy_server.Strconv.{pos}
use policy_server.Storage.InMemory.Refinement.{
  Command, read, add, replace, drop, replies, spec_replies, mapping_of, replies-spec_replies,
}
use policy_server.Storage.InMemory.{RangeOrder, InMemoryDb, list, close}
use policy_server.Storage.InMemory.Closed.{nil_reply, after_all, closed_replies}
use policy_server.Result.{ok}
use policy_server.Tests.Setup.{in_order, in_order-IsOrder, fresh, fresh-IsOpen}

abbrev commands : List Command
commands =
    add (codes "k") (codes "d")
    ∷ add (codes "k") (codes "e")
    ∷ read (codes "k")
    ∷ replace (codes "k") (pos 2) (codes "f")
    ∷ drop (codes "k") (pos 1)
    ∷ read (codes "k")
    ∷ []

replies-spec_replies_example :
    replies commands fresh.store ≡ spec_replies commands (mapping_of fresh.store)
replies-spec_replies_example = replies-spec_replies commands fresh.store fresh-IsOpen

closed_replies_example :
    (replies commands (close fresh.store).1 ≡ map nil_reply commands)
    × (list in_order [] 0 (after_all commands (close fresh.store).1)
        ≡ (ok [], (close fresh.store).1))
closed_replies_example = closed_replies commands in_order [] 0 fresh.store

-- Entries are visited from the last one back.
abbrev backwards : RangeOrder
backwards n m = reverse m

backwards-IsOrder : IsOrder backwards
backwards-IsOrder n m = reverse_perm m

-- A database that was opened later.
abbrev other : InMemoryDb
other = record { db = some []; clock = λ n. 40; reads = 0; entropy = 3 }

other-IsOpen : IsOpen other
other-IsOpen = record { table = []; opened = refl; unique = tt }

observed_alike_example :
    (replies commands fresh.store ≡ replies commands other)
    × (listed (list in_order [] 0 (after_all commands fresh.store)).0
        ≡ listed (list backwards [] 0 (after_all commands other)).0)
observed_alike_example =
    observed_alike in_order backwards in_order-IsOrder backwards-IsOrder commands [] 0 fresh.store
      other fresh-IsOpen other-IsOpen refl
