-- ===== src/Polr/Threads/Alone.antt =====
-- A thread that runs alone does what its handler does.
use policy_server.Prelude.{[], ◌∷◌, ◌++◌, ℕ, zero, suc, ◌≡◌, refl, sym, inl, inr, true, false}
use policy_server.Result.{Result, ok, err, panicked, pure, continue, ◌>>=◌}
use policy_server.Storage.{Storage}
use policy_server.Polr.Threads.Rest.{
  rest, tell, write_rest, version_rest, force_rest, tell_removed, remove_rest, create_rest_lem,
  update_rest_lem, force_rest_lem, delete_rest_lem,
}
use policy_server.Report.{Platform, report}
use policy_server.Handler.{action, deleted, ReportOf, ObjectOf, State, Handler}
use policy_server.Polr.{polr_to_obj, delete, create, update}
use policy_server.Polr.Threads.{
  force_asked, forcing, delete_asked, deleting, telling_removed, force_step, force_write,
  delete_step, remove_step, tell_removed_step, removes, creates, DeleteRequest, create_asked,
  update_asked, Work, creates, updates, tries, CreateRequest, UpdateRequest, Thread, create_asked,
  update_asked, versioning, writing, telling, finished, Outcome, create_step, update_step,
  version_step, write_step, tell_step, settle, advance,
}

module _ (P : Platform) (S : Storage) where
  -- That many steps of one thread, with no other between them.
  pub run_alone : ℕ → Thread P S → State P S → Thread P S × State P S
  run_alone zero p s = (p, s)
  run_alone (suc n) p s = let (p', t) = advance P S p s in run_alone n p' t

  -- The thread has the handler's result, and the state is the handler's.
  pub record Answers (x : Thread P S × State P S) (y : Result (ObjectOf P) × State P S)
      : Type 0 where
    pub work : Work P S
    pub answer : x.0 ≡ finished work y.0
    pub left : x.1 ≡ y.1

  stays :
      (n : ℕ) (work : Work P S) (x : Result (ObjectOf P)) (s : State P S)
      → run_alone n (finished work x) s ≡ (finished work x, s)
  unfolding run_alone advance
  stays zero work x s = refl
  stays (suc n) work x s = stays n work x s

  settle-Answers :
      (work : Work P S) (next : ReportOf P → Thread P S) (f : ReportOf P → Handler P S (ObjectOf P))
      (n : ℕ)
      → ((r : ReportOf P) (t : State P S) → Answers (run_alone n (next r) t) (f r t))
      → (x : Result (Outcome P S) × State P S)
      → let (p, t) = settle P S work next x in Answers (run_alone n p t) (continue x (rest P S f))
  unfolding pure
  settle-Answers work next f n h (ok (inl r), t) = h r t
  settle-Answers work next f n h (ok (inr obj), t) =
      rw (stays n work (ok obj) t) (record { work = work; answer = refl; left = refl })
  settle-Answers work next f n h (err e, t) =
      rw (stays n work (err e) t) (record { work = work; answer = refl; left = refl })
  settle-Answers work next f n h (panicked, t) =
      rw (stays n work panicked t) (record { work = work; answer = refl; left = refl })

  telling-Answers :
      (work : Work P S) (r : ReportOf P) (s : State P S)
      → Answers (run_alone 1 (telling work r) s) (tell P S r s)
  unfolding run_alone advance tell_step ◌>>=◌
  telling-Answers work r s = record { work = work; answer = refl; left = refl }

  writing-Answers :
      (r : ReportOf P) (s : State P S) → Answers (run_alone 2 (writing r) s) (write_rest P S r s)
  unfolding run_alone advance ◌>>=◌
  writing-Answers r s =
      settle-Answers tries (telling updates) (tell P S) 1 (telling-Answers updates)
        (write_step P S r s)

  versioning-Answers :
      (r : ReportOf P) (s : State P S)
      → Answers (run_alone 3 (versioning r) s) (version_rest P S r s)
  unfolding run_alone advance ◌>>=◌
  versioning-Answers r s =
      settle-Answers tries writing (write_rest P S) 2 writing-Answers (version_step P S r s)

  forcing-Answers :
      (r : ReportOf P) (s : State P S) → Answers (run_alone 2 (forcing r) s) (force_rest P S r s)
  unfolding run_alone advance ◌>>=◌
  forcing-Answers r s =
      settle-Answers tries (telling updates) (tell P S) 1 (telling-Answers updates)
        (force_write P S r s)

  telling_removed-Answers :
      (r : ReportOf P) (s : State P S)
      → Answers (run_alone 1 (telling_removed r) s) (tell_removed P S r s)
  unfolding run_alone advance tell_removed_step pure ◌>>=◌
  telling_removed-Answers r s =
      go (polr_to_obj P S r (record s { calls = s.calls ++ (action deleted (report r) ∷ []) }))
    where
      go :
          (x : Result (ObjectOf P) × State P S)
          → let (p, t) =
              settle P S
                (removes r)
                telling_removed
                (continue {B = Outcome P S} x (λ obj. pure (inr obj))) in
            Answers (p, t) x
      go (ok obj, t) = record { work = removes r; answer = refl; left = refl }
      go (err e, t) = record { work = removes r; answer = refl; left = refl }
      go (panicked, t) = record { work = removes r; answer = refl; left = refl }

  deleting-Answers :
      (r : ReportOf P) (s : State P S) → Answers (run_alone 2 (deleting r) s) (remove_rest P S r s)
  unfolding run_alone advance ◌>>=◌
  deleting-Answers r s =
      settle-Answers tries telling_removed (tell_removed P S) 1 telling_removed-Answers
        (remove_step P S r s)

  -- A thread that serves a `Create`, an `Update`, forced or not, or a `Delete`, with no step of
  -- another thread between its own, ends in at most two, four, three and three steps with the
  -- answer and the state of the handler run as a whole.
  pub threads_alone :
      (q : CreateRequest P S) (u : UpdateRequest P S) (d : DeleteRequest P S) (s : State P S)
      → Answers
          (run_alone 2 (create_asked q) s)
          (create P S q.validate_new q.create_namespace q.new_object q.create_options s)
        × Answers (run_alone 4 (update_asked u) s) (
            update P S u.info u.validate_change u.update_namespace u.update_name false
              u.update_options s)
        × Answers (run_alone 3 (force_asked u) s) (
            update P S u.info u.validate_change u.update_namespace u.update_name true
              u.update_options s)
        × Answers
            (run_alone 3 (delete_asked d) s)
            (delete P S d.validate_removal d.delete_namespace d.delete_options d.delete_name s)
  unfolding run_alone advance ◌>>=◌
  threads_alone q u d s = (
    rw (sym (create_rest_lem P S q s)) (
        settle-Answers tries (λ r. telling (creates r) r) (tell P S) 1
          (λ r. telling-Answers (creates r) r) (create_step P S q s)),
    rw (sym (update_rest_lem P S u s)) (
        settle-Answers tries versioning (version_rest P S) 3 versioning-Answers
          (update_step P S u s)),
    rw (sym (force_rest_lem P S u s))
        (settle-Answers tries forcing (force_rest P S) 2 forcing-Answers (force_step P S u s)),
    rw (sym (delete_rest_lem P S d s))
        (settle-Answers tries deleting (remove_rest P S) 2 deleting-Answers (delete_step P S d s)),
  )
