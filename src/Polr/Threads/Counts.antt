-- ===== src/Polr/Threads/Counts.antt =====
-- What the threads of pkg/api/polr.go have done to one key, in numbers.
use policy_server.Prelude.{
  ℕ, ◌≡◌, refl, List, [], ◌∷◌, ◌++◌, ◌+◌, ◌≤◌, arith, if◌then◌else◌, Bool, true, false,
}
use policy_server.Prelude.Texts.{Text, text_eq}
use policy_server.Storage.{Storage}
use policy_server.Report.{Platform}
use policy_server.Handler.{ReportOf}
use policy_server.Polr.{key}
use policy_server.Polr.Threads.{
  creates, removes, Thread, create_asked, update_asked, force_asked, delete_asked, deleting,
  telling, telling_removed, finished,
}

-- The sum over a list.
unfoldable pub total : {A : Type 0} → (A → ℕ) → List A → ℕ
total f [] = 0
total f (x ∷ xs) = f x + total f xs

pub total-append :
    {A : Type 0} (f : A → ℕ) (xs : List A) (p : A) (ys : List A)
    → total f (xs ++ (p ∷ ys)) ≡ f p + (total f xs + total f ys)
unfolding total
total-append f [] p ys = omega arith
total-append f (x ∷ xs) p ys = let h = total-append f xs p ys in omega (arith, h)

pub total_le :
    {A : Type 0} (f g : A → ℕ) (xs : List A) → ((x : A) → f x ≤ g x) → total f xs ≤ total g xs
unfolding total
total_le f g [] h = omega arith
total_le f g (x ∷ xs) h = let rest = total_le f g xs h in let one = h x in omega (arith, rest, one)

module _ (P : Platform) (S : Storage) where
  -- One if the thread serves a `Delete`.
  unfoldable pub is_delete : Thread P S → ℕ
  is_delete (delete_asked q) = 1
  is_delete (deleting r) = 1
  is_delete (telling_removed r) = 1
  is_delete (telling (removes r) r') = 1
  is_delete (finished (removes r) x) = 1
  is_delete _ = 0

  -- Every thread is at its first step.
  abbrev pub AreAsked : List (Thread P S) → Type 0
  AreAsked [] = Unit
  AreAsked (create_asked q ∷ ps) = AreAsked ps
  AreAsked (update_asked q ∷ ps) = AreAsked ps
  AreAsked (force_asked q ∷ ps) = AreAsked ps
  AreAsked (delete_asked q ∷ ps) = AreAsked ps
  AreAsked (p ∷ ps) = ⊥

  module _ (k : Text) where
    -- One if the report has the key.
    abbrev pub mine : ReportOf P → ℕ
    mine r = if text_eq (key P.group_version r.name r.namespace) k then 1 else 0

    -- One if the thread has created the report of the key.
    unfoldable pub won : Thread P S → ℕ
    won (telling (creates r) r') = mine r
    won (finished (creates r) x) = mine r
    won _ = 0

    -- One if the thread has removed the report of the key.
    unfoldable pub lost : Thread P S → ℕ
    lost (telling_removed r) = mine r
    lost (telling (removes r) r') = mine r
    lost (finished (removes r) x) = mine r
    lost _ = 0

    -- How many threads have created, and how many have removed, the report of the key.
    abbrev pub winners : List (Thread P S) → ℕ
    winners = total won

    abbrev pub losers : List (Thread P S) → ℕ
    losers = total lost

    pub at_most_one : (b : Bool) → (if b then 1 else 0) ≤ 1
    at_most_one true = omega arith
    at_most_one false = omega arith

    pub lost_le_delete : (p : Thread P S) → lost p ≤ is_delete p
    unfolding lost is_delete
    lost_le_delete (telling_removed r) = at_most_one _
    lost_le_delete (telling (removes r) r') = at_most_one _
    lost_le_delete (finished (removes r) x) = at_most_one _
    lost_le_delete _ = omega arith

    pub asked-counts : (ps : List (Thread P S)) → AreAsked ps → (winners ps ≡ 0) × (losers ps ≡ 0)
    unfolding total won lost
    asked-counts [] h = (refl, refl)
    asked-counts (create_asked q ∷ ps) h =
        let (e, f) = asked-counts ps h in (omega (arith, e), omega (arith, f))
    asked-counts (update_asked q ∷ ps) h =
        let (e, f) = asked-counts ps h in (omega (arith, e), omega (arith, f))
    asked-counts (force_asked q ∷ ps) h =
        let (e, f) = asked-counts ps h in (omega (arith, e), omega (arith, f))
    asked-counts (delete_asked q ∷ ps) h =
        let (e, f) = asked-counts ps h in (omega (arith, e), omega (arith, f))
    asked-counts (_ ∷ ps) h = elim h [ ]
