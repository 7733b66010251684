-- ===== src/Polr/Threads/Ends.antt =====
-- The threads of pkg/api/polr.go end, whatever the schedule.
use policy_server.Prelude.{
  ℕ, suc, ◌≡◌, refl, ap, ◌⊎◌, inl, inr, List, [], ◌∷◌, ◌++◌, ◌+◌, ◌≤◌, arith,
}
use policy_server.Result.{Result, ok, err, panicked, ◌>>=◌}
use policy_server.Storage.{Storage}
use policy_server.Report.{Platform}
use policy_server.Handler.{ReportOf, State}
use policy_server.Polr.{polr_to_obj}
use policy_server.Polr.Threads.{
  force_asked, forcing, delete_asked, deleting, telling_removed, force_step, force_write,
  delete_step, remove_step, tell_removed_step, Work, creates, updates, tries, create_step,
  update_step, version_step, write_step, tell_step, Thread, create_asked, update_asked, versioning,
  writing, telling, finished, Outcome, settle, advance, System, IsRunning, Step, pick, Schedule,
  begin, next,
}

module _ (P : Platform) (S : Storage) where
  -- The steps that a thread has before it at most.
  unfoldable pub left : Thread P S → ℕ
  left (create_asked q) = 2
  left (update_asked q) = 4
  left (versioning r) = 3
  left (force_asked q) = 3
  left (forcing r) = 2
  left (delete_asked q) = 3
  left (deleting r) = 2
  left (telling_removed r) = 1
  left (writing r) = 2
  left (telling work r) = 1
  left (finished work x) = 0

  unfoldable pub all_left : List (Thread P S) → ℕ
  unfolding left
  all_left [] = 0
  all_left (p ∷ ps) = left p + all_left ps

  all_left-append :
      (xs : List (Thread P S)) (p : Thread P S) (ys : List (Thread P S))
      → all_left (xs ++ (p ∷ ys)) ≡ left p + (all_left xs + all_left ys)
  unfolding all_left
  all_left-append [] p ys = omega arith
  all_left-append (x ∷ xs) p ys = let h = all_left-append xs p ys in omega (arith, h)

  settle-left :
      (n : ℕ) (work : Work P S) (go_on : ReportOf P → Thread P S)
      → ((r : ReportOf P) → left (go_on r) ≤ n)
      → (x : Result (Outcome P S) × State P S) → left (settle P S work go_on x).0 ≤ n
  unfolding left
  settle-left n work go_on h (ok (inl r), t) = h r
  settle-left n work go_on h (ok (inr obj), t) = omega arith
  settle-left n work go_on h (err e, t) = omega arith
  settle-left n work go_on h (panicked, t) = omega arith

  advance-left :
      (p : Thread P S) (s : State P S) → IsRunning P S p → suc (left (advance P S p s).0) ≤ left p
  unfolding advance left tell_step tell_removed_step polr_to_obj ◌>>=◌
  advance-left (create_asked q) s run =
      let h =
        settle-left 1 tries (λ r. telling (creates r) r) (λ r. omega arith) (create_step P S q s) in
      omega (arith, h)
  advance-left (update_asked q) s run =
      let h = settle-left 3 tries versioning (λ r. omega arith) (update_step P S q s) in
      omega (arith, h)
  advance-left (versioning r) s run =
      let h = settle-left 2 tries writing (λ r. omega arith) (version_step P S r s) in
      omega (arith, h)
  advance-left (writing r) s run =
      let h = settle-left 1 tries (telling updates) (λ r. omega arith) (write_step P S r s) in
      omega (arith, h)
  advance-left (force_asked q) s run =
      let h = settle-left 2 tries forcing (λ r. omega arith) (force_step P S q s) in
      omega (arith, h)
  advance-left (forcing r) s run =
      let h = settle-left 1 tries (telling updates) (λ r. omega arith) (force_write P S r s) in
      omega (arith, h)
  advance-left (delete_asked q) s run =
      let h = settle-left 2 tries deleting (λ r. omega arith) (delete_step P S q s) in
      omega (arith, h)
  advance-left (deleting r) s run =
      let h = settle-left 1 tries telling_removed (λ r. omega arith) (remove_step P S r s) in
      omega (arith, h)
  advance-left (telling_removed r) s run = ground arith
  advance-left (telling work r) s run = omega arith
  advance-left (finished work x) s run = elim run [ ]

  Step-left : {s t : System P S} → Step P S s t → suc (all_left t.threads) ≤ all_left s.threads
  Step-left {s} {t} (pick before p after was run now same) =
      let h = advance-left p s.shared run in
      rw
        (
          was,
          now,
          all_left-append before p after,
          all_left-append before (advance P S p s.shared).0 after,
        )
        (omega (arith, h))

  Schedule-left :
      {s t : System P S} {n : ℕ} → Schedule P S s n t → n + all_left t.threads ≤ all_left s.threads
  Schedule-left begin = omega arith
  Schedule-left (next c e) = let h = Schedule-left c in let k = Step-left e in omega (arith, h, k)

  -- Every thread is finished.
  abbrev pub AreFinished : List (Thread P S) → Type 0
  AreFinished [] = Unit
  AreFinished (p ∷ ps) = (IsRunning P S p → ⊥) × AreFinished ps

  -- The list has a thread that runs.
  record HasRunning (ps : List (Thread P S)) : Type 0 where
    before : List (Thread P S)
    chosen : Thread P S
    after : List (Thread P S)
    parts : ps ≡ before ++ (chosen ∷ after)
    runs : IsRunning P S chosen

  IsRunning-cases : (p : Thread P S) → IsRunning P S p ⊎ (IsRunning P S p → ⊥)
  IsRunning-cases (create_asked q) = inl tt
  IsRunning-cases (update_asked q) = inl tt
  IsRunning-cases (versioning r) = inl tt
  IsRunning-cases (writing r) = inl tt
  IsRunning-cases (force_asked q) = inl tt
  IsRunning-cases (forcing r) = inl tt
  IsRunning-cases (delete_asked q) = inl tt
  IsRunning-cases (deleting r) = inl tt
  IsRunning-cases (telling_removed r) = inl tt
  IsRunning-cases (telling work r) = inl tt
  IsRunning-cases (finished work x) = inr λ run. run

  first_running : (ps : List (Thread P S)) → AreFinished ps ⊎ HasRunning ps
  first_running [] = inl tt
  first_running (p ∷ ps) = elim (IsRunning-cases p) [
    | inl run ↦ inr (record { before = []; chosen = p; after = ps; parts = refl; runs = run })
    | inr ended ↦ elim (first_running ps) [
      | inl all ↦ inl (ended, all)
      | inr h ↦ inr (record {
        before = p ∷ h.before;
        chosen = h.chosen;
        after = h.after;
        parts = ap (λ qs. p ∷ qs) h.parts;
        runs = h.runs;
      })
    ]
  ]

  -- Whatever the schedule, the steps that threads make and those that they may have left are
  -- together no more than what they may make at the start, and a system of threads that are not
  -- all finished has a next step.
  pub threads_end :
      {n : ℕ} (s t : System P S)
      → Schedule P S s n t
      → (n + all_left t.threads ≤ all_left s.threads)
        × (AreFinished t.threads ⊎ ((u : System P S) × Step P S t u))
  threads_end s t c = (
    Schedule-left c,
    elim (first_running t.threads) [
      | inl all ↦ inl all
      | inr h ↦ inr (
        record {
          shared = (advance P S h.chosen t.shared).1;
          threads = h.before ++ ((advance P S h.chosen t.shared).0 ∷ h.after);
        },
        pick h.before h.chosen h.after h.parts h.runs refl refl,
      )
    ],
  )
