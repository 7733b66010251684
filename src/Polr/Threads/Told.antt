-- ===== src/Polr/Threads/Told.antt =====
-- The threads of pkg/api/polr.go tell the watchers of what they have done, once each.
use policy_server.Prelude.{ℕ, ◌≡◌, List, [], ◌∷◌, ◌+◌}
use policy_server.Result.{Result}
use policy_server.Result.Keeps.{Keeps}
use policy_server.Storage.{Storage}
use policy_server.Report.{Platform}
use policy_server.Handler.{call_count, Handler}
use policy_server.Polr.Threads.{creates, updates, removes, tries, Thread, telling, finished, System}
use policy_server.Polr.Threads.Counts.{total}

module _ (P : Platform) (S : Storage) where
  -- One if the thread is at its end and has created, updated or removed a report.
  unfoldable pub has_told : Thread P S → ℕ
  has_told (finished (creates r) x) = 1
  has_told (finished (removes r) x) = 1
  has_told (finished updates x) = 1
  has_told _ = 0

  -- A thread that is about to tell the watchers has something to tell.
  unfoldable pub HasNews : Thread P S → Type 0
  HasNews (telling tries r) = ⊥
  HasNews _ = Unit

  abbrev pub HaveNews : List (Thread P S) → Type 0
  HaveNews [] = Unit
  HaveNews (p ∷ ps) = HasNews p × HaveNews ps

  -- As many calls have been made as threads are at their ends with work done, but for the start.
  record Even (s t : System P S) : Type 0 where
    news : HaveNews t.threads
    even :
        call_count P S t.shared.calls + total has_told s.threads
        ≡ call_count P S s.shared.calls + total has_told t.threads
