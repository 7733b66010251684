-- ===== src/Polr/Threads/Race.antt =====
-- What one step of a thread of pkg/api/polr.go does to one key.
use policy_server.Prelude.{ℕ, ◌≡◌, refl, inl, inr, [], ◌∷◌, ◌++◌, ◌+◌, ◌≤◌, arith}
use policy_server.Prelude.Texts.{Text, text_eq}
use policy_server.Result.{Result, ok, err, panicked, pure, continue, ◌>>=◌}
use policy_server.Storage.{Storage}
use policy_server.Storage.Contract.{Contract}
use policy_server.Report.{Platform, report}
use policy_server.Handler.{ReportOf, ObjectOf, State, deleted, action}
use policy_server.Polr.{key, polr_to_obj}
use policy_server.Polr.Threads.{
  creates, removes, updates, tries, Thread, create_asked, update_asked, force_asked, delete_asked,
  versioning, writing, forcing, deleting, telling, telling_removed, finished, Outcome, create_step,
  tell_step, remove_step, tell_removed_step, settle, advance,
}
use policy_server.Polr.Threads.Vacancy.{
  vacancy, Vacancy, update_step-Vacancy, version_step-Vacancy, write_step-Vacancy,
  force_step-Vacancy, force_write-Vacancy, delete_step-Vacancy, polr_to_obj-Vacancy,
}
use policy_server.Polr.Threads.Counts.{is_delete, mine, won, lost, at_most_one}
use policy_server.Polr.Threads.Gains.{gained, create_step-Balances, remove_step-frees}

module _ (P : Platform) (S : Storage) (C : Contract S) (k : Text) where
  -- What a step does to the counts of a thread, `w` and `l` before it, and to the key. A thread that serves no
  -- `Delete` serves none later, and frees no key.
  abbrev pub Moves : State P S → ℕ → ℕ → ℕ → Thread P S × State P S → Type 0
  Moves s w l d (p, t) =
      C.Ready t.store
      × (won P S k p + vacancy P S C k t + l ≡ w + vacancy P S C k s + lost P S k p)
      × (is_delete P S p ≤ d)
      × (vacancy P S C k t ≤ vacancy P S C k s + d)

  -- A thread that has neither created nor removed the report, in a state with the key as before.
  quiet :
      (s t : State P S) (d : ℕ) (p : Thread P S)
      → won P S k p ≡ 0
      → lost P S k p ≡ 0
      → is_delete P S p ≤ d
      → Vacancy P S C k (vacancy P S C k s) t
      → Moves s 0 0 d (p, t)
  quiet s t d p w l less i =
      let e = i.count in (i.ready, omega (arith, e, w, l), less, omega (arith, e))

  settle-quiet :
      (s : State P S) (d : ℕ) (go_on : ReportOf P → Thread P S)
      → ((r : ReportOf P) → won P S k (go_on r) ≡ 0)
      → ((r : ReportOf P) → lost P S k (go_on r) ≡ 0)
      → ((r : ReportOf P) → is_delete P S (go_on r) ≤ d)
      → (x : Result (Outcome P S) × State P S) → Vacancy P S C k (vacancy P S C k s) x.1
      → Moves s 0 0 d (settle P S tries go_on x)
  unfolding won lost is_delete
  settle-quiet s d go_on w l less (ok (inl r), t) i = quiet s t d (go_on r) (w r) (l r) (less r) i
  settle-quiet s d go_on w l less (ok (inr obj), t) i =
      quiet s t d (finished tries (ok obj)) refl refl (omega arith) i
  settle-quiet s d go_on w l less (err x, t) i =
      quiet s t d (finished tries (err x)) refl refl (omega arith) i
  settle-quiet s d go_on w l less (panicked, t) i =
      quiet s t d (finished tries panicked) refl refl (omega arith) i

  settle-created :
      (s : State P S) (x : Result (Outcome P S) × State P S)
      → C.Ready x.1.store
      → gained P S C k x.0 + vacancy P S C k x.1 ≡ vacancy P S C k s
      → Moves s 0 0 0 (settle P S tries (λ r. telling (creates r) r) x)
  unfolding won lost is_delete
  settle-created s (ok (inl r), t) ready e =
      (ready, omega (arith, e), omega arith, omega (arith, e))
  settle-created s (ok (inr obj), t) ready e =
      (ready, omega (arith, e), omega arith, omega (arith, e))
  settle-created s (err x, t) ready e = (ready, omega (arith, e), omega arith, omega (arith, e))
  settle-created s (panicked, t) ready e = (ready, omega (arith, e), omega arith, omega (arith, e))

  settle-removed :
      (s : State P S) (x : Result (Outcome P S) × State P S)
      → C.Ready x.1.store
      → vacancy P S C k x.1 ≡ gained P S C k x.0 + vacancy P S C k s
      → Moves s 0 0 1 (settle P S tries telling_removed x)
  unfolding won lost is_delete
  settle-removed s (ok (inl r), t) ready e =
      let one = at_most_one P S k (text_eq (key P.group_version r.name r.namespace) k) in
      (ready, omega (arith, e), omega arith, omega (arith, e, one))
  settle-removed s (ok (inr obj), t) ready e =
      (ready, omega (arith, e), omega arith, omega (arith, e))
  settle-removed s (err x, t) ready e = (ready, omega (arith, e), omega arith, omega (arith, e))
  settle-removed s (panicked, t) ready e = (ready, omega (arith, e), omega arith, omega (arith, e))

  settle-told :
      (s : State P S) (r : ReportOf P) (x : Result (ObjectOf P) × State P S)
      → Vacancy P S C k (vacancy P S C k s) x.1
      → Moves s 0 (mine P S k r) 1 (
          settle P S
            (removes r)
            telling_removed
            (continue {B = Outcome P S} x (λ obj. pure (inr obj))))
  unfolding won lost is_delete pure
  settle-told s r (ok obj, t) i =
      let e = i.count in (i.ready, omega (arith, e), omega arith, omega (arith, e))
  settle-told s r (err x, t) i =
      let e = i.count in (i.ready, omega (arith, e), omega arith, omega (arith, e))
  settle-told s r (panicked, t) i =
      let e = i.count in (i.ready, omega (arith, e), omega arith, omega (arith, e))

  same : (s : State P S) → C.Ready s.store → Vacancy P S C k (vacancy P S C k s) s
  same s ready = record { ready = ready; count = refl }

  pub advance-Moves :
      (p : Thread P S) (s : State P S)
      → C.Ready s.store
      → Moves s (won P S k p) (lost P S k p) (is_delete P S p) (advance P S p s)
  unfolding advance won lost is_delete tell_step tell_removed_step ◌>>=◌
  advance-Moves (create_asked q) s ready =
      let (r, e) = (create_step-Balances P S C k q).after s ready in
      settle-created s (create_step P S q s) r e
  advance-Moves (update_asked q) s ready =
      settle-quiet s 0 versioning (λ r. refl) (λ r. refl) (λ r. omega arith) _
        ((update_step-Vacancy P S C k _ q).after s (same s ready))
  advance-Moves (force_asked q) s ready =
      settle-quiet s 0 forcing (λ r. refl) (λ r. refl) (λ r. omega arith) _
        ((force_step-Vacancy P S C k _ q).after s (same s ready))
  advance-Moves (delete_asked q) s ready =
      settle-quiet s 1 deleting (λ r. refl) (λ r. refl) (λ r. omega arith) _
        ((delete_step-Vacancy P S C k _ q).after s (same s ready))
  advance-Moves (versioning r) s ready =
      settle-quiet s 0 writing (λ r. refl) (λ r. refl) (λ r. omega arith) _
        ((version_step-Vacancy P S C k _ r).after s (same s ready))
  advance-Moves (writing r) s ready =
      settle-quiet s 0 (telling updates) (λ r. refl) (λ r. refl) (λ r. omega arith) _
        ((write_step-Vacancy P S C k _ r).after s (same s ready))
  advance-Moves (forcing r) s ready =
      settle-quiet s 0 (telling updates) (λ r. refl) (λ r. refl) (λ r. omega arith) _
        ((force_write-Vacancy P S C k _ r).after s (same s ready))
  advance-Moves (deleting r) s ready =
      let (ready', e) = remove_step-frees P S C k r s ready in
      settle-removed s (remove_step P S r s) ready' e
  advance-Moves (telling_removed r) s ready =
      let t : State P S = record s { calls = s.calls ++ (action deleted (report r) ∷ []) } in
      settle-told s r (polr_to_obj P S r t)
        ((polr_to_obj-Vacancy P S C k _ r).after t (record { ready = ready; count = refl }))
  advance-Moves (telling (creates r') r) s ready = (ready, omega arith, omega arith, omega arith)
  advance-Moves (telling (removes r') r) s ready = (ready, omega arith, omega arith, omega arith)
  advance-Moves (telling updates r) s ready = (ready, omega arith, omega arith, omega arith)
  advance-Moves (telling tries r) s ready = (ready, omega arith, omega arith, omega arith)
  advance-Moves (finished work x) s ready = (ready, omega arith, omega arith, omega arith)
