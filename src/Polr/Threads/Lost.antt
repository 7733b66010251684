-- ===== src/Polr/Threads/Lost.antt =====
-- Two `Update`s of one report of pkg/api/polr.go, whose steps alternate until both have written.
use policy_server.Prelude.{◌≡◌, refl, sym, ap, ◌∙◌, false, none, some, [], ◌∷◌, ◌++◌}
use policy_server.Prelude.Texts.{Text, text_eq_refl}
use policy_server.Result.{ok, pure, ◌>>=◌}
use policy_server.Strconv.{ℤ, parse_int}
use policy_server.Storage.{Storage}
use policy_server.Storage.Contract.{Contract}
use policy_server.Report.{Platform, report}
use policy_server.Handler.{
  ReportOf, State, is_dry_run, Accepts, check_validation-Accepts, as_report, decode, raise_if,
  added, action,
}
use policy_server.Polr.{key, default_namespace}
use policy_server.Polr.Reads.{held, get_polr-held}
use policy_server.Polr.Update.{bumped, replaced, next_version-held}
use policy_server.Polr.Threads.{
  updates, UpdateRequest, Thread, update_asked, versioning, writing, telling, finished, update_step,
  version_step, write_version, write_step, tell_step, advance, System, IsRunning, Step, pick,
  Schedule, begin, next,
}

module _ (P : Platform) (S : Storage) (C : Contract S) (name namespace : Text) (old : ReportOf P)
    (n : ℤ) where
  -- The request, no dry run, makes the old report another one of the same name and namespace that passes validation
  -- and encodes with the version after `n`.
  pub record Rewrites (q : UpdateRequest P S) : Type 0 where
    pub fresh_report : ReportOf P
    pub fresh_bytes : Text
    pub same_target : (q.update_name ≡ name) × (q.update_namespace ≡ namespace)
    pub changes : q.info (some old) ≡ (some (report fresh_report), none)
    pub accepted : Accepts P S (q.validate_change (some (report fresh_report)) old) q.update_options
    pub wet : is_dry_run q.update_options ≡ false
    pub same_name : (default_namespace P S q.update_namespace fresh_report).name ≡ name
    pub same_namespace :
        (default_namespace P S q.update_namespace fresh_report).namespace ≡ namespace
    pub encodes :
        P.marshal (bumped P S C (default_namespace P S q.update_namespace fresh_report) n)
        ≡ ok fresh_bytes

  -- The report as the request would store it.
  abbrev pub rewritten : {q : UpdateRequest P S} → Rewrites q → ReportOf P
  rewritten {q} h = bumped P S C (default_namespace P S q.update_namespace h.fresh_report) n

  module _ (q : UpdateRequest P S) (h : Rewrites q) (d : Text) (s : State P S)
      (ready : C.Ready s.store) (there : held P S C name namespace s ≡ some d) where
    asked-advance :
        decode P d ≡ ok old
        → advance P S (update_asked q) s
          ≡ (versioning (default_namespace P S q.update_namespace h.fresh_report), s)
    unfolding advance update_step as_report raise_if pure ◌>>=◌
    asked-advance dec =
        let (e, f) = h.same_target in
        rw
          (
            e,
            get_polr-held P S C name q.update_namespace d s ready (rw f there),
            dec,
            h.changes,
            check_validation-Accepts P S (q.validate_change (some (report h.fresh_report)) old)
                q.update_options s h.accepted,
            h.wet,
          )
          refl

    versioning-advance :
        decode P d ≡ ok old
        → parse_int old.resource_version ≡ (n, none)
        → advance P S (versioning (default_namespace P S q.update_namespace h.fresh_report)) s
          ≡ (writing (rewritten h), s)
    unfolding advance version_step pure ◌>>=◌
    versioning-advance dec rv =
        rw
          (next_version-held P S C (default_namespace P S q.update_namespace h.fresh_report) d old n
            s ready (rw (h.same_name, h.same_namespace) there) dec rv)
          refl

    -- The state after the storage call.
    abbrev wrote : State P S
    wrote = record s { store = (replaced P S C (rewritten h) h.fresh_bytes s.store).1 }

    writing-advance : advance P S (writing (rewritten h)) s ≡ (telling updates (rewritten h), wrote)
    unfolding advance write_step write_version pure ◌>>=◌
    writing-advance =
        let k = key P.group_version (rewritten h).name (rewritten h).namespace in
        let (e, _) =
          C.update_found k h.fresh_bytes d (parse_int (rewritten h).resource_version).0 s.store
            ready (rw (h.same_name, h.same_namespace) there) in
        rw (h.encodes, e) refl

    wrote-Ready : C.Ready wrote.store
    wrote-Ready = C.update-Ready _ _ _ s.store ready

    wrote-held : held P S C name namespace wrote ≡ some h.fresh_bytes
    wrote-held =
        let k = key P.group_version (rewritten h).name (rewritten h).namespace in
        let (_, entries) =
          C.update_found k h.fresh_bytes d (parse_int (rewritten h).resource_version).0 s.store
            ready (rw (h.same_name, h.same_namespace) there) in
        entries (key P.group_version name namespace)
        ∙ rw (h.same_name, h.same_namespace, text_eq_refl (key P.group_version name namespace)) refl

  pub telling-advance :
      (r : ReportOf P) (s : State P S)
      → advance P S (telling updates r) s ≡ (
        finished updates (ok (report r)),
        record s { calls = s.calls ++ (action added (report r) ∷ []) },
      )
  unfolding advance tell_step pure ◌>>=◌
  telling-advance r s = refl

  abbrev pub pair : State P S → Thread P S → Thread P S → System P S
  pair s p q = record { shared = s; threads = p ∷ q ∷ [] }

  pub first_step :
      (s t : State P S) (p p' q : Thread P S)
      → IsRunning P S p
      → advance P S p s ≡ (p', t)
      → Step P S (pair s p q) (pair t p' q)
  first_step s t p p' q run e =
      pick [] p (q ∷ []) refl run (ap (λ (x : Thread P S × State P S). x.0 ∷ q ∷ []) (sym e))
        (ap (λ (x : Thread P S × State P S). x.1) (sym e))

  pub second_step :
      (s t : State P S) (p q q' : Thread P S)
      → IsRunning P S q
      → advance P S q s ≡ (q', t)
      → Step P S (pair s p q) (pair t p q')
  second_step s t p q q' run e =
      pick (p ∷ []) q [] refl run (ap (λ (x : Thread P S × State P S). p ∷ x.0 ∷ []) (sym e))
        (ap (λ (x : Thread P S × State P S). x.1) (sym e))

  -- Both requests have written, the second one last, and the watchers are to be told.
  pub record BothWritten (q1 q2 : UpdateRequest P S) (h1 : Rewrites q1) (h2 : Rewrites q2)
      (s : State P S) : Type 0 where
    pub after : State P S
    pub reached :
        Schedule P S
          (pair s (update_asked q1) (update_asked q2))
          6
          (pair after (telling updates (rewritten h1)) (telling updates (rewritten h2)))
    pub no_calls : after.calls ≡ s.calls
    pub second_bytes : held P S C name namespace after ≡ some h2.fresh_bytes

  pub both_write :
      (q1 q2 : UpdateRequest P S) (h1 : Rewrites q1) (h2 : Rewrites q2) (d : Text) (s : State P S)
      → C.Ready s.store
      → held P S C name namespace s ≡ some d
      → decode P d ≡ ok old
      → parse_int old.resource_version ≡ (n, none)
      → BothWritten q1 q2 h1 h2 s
  both_write q1 q2 h1 h2 d s ready there dec rv =
      let s1 = wrote q1 h1 d s ready there in
      let ready1 = wrote-Ready q1 h1 d s ready there in
      let there1 = wrote-held q1 h1 d s ready there in
      let s2 = wrote q2 h2 h1.fresh_bytes s1 ready1 there1 in
      let both_asked =
        next (next begin (first_step s s _ _ _ tt (asked-advance q1 h1 d s ready there dec)))
          (second_step s s _ _ _ tt (asked-advance q2 h2 d s ready there dec)) in
      let both_read =
        next
          (next both_asked
            (first_step s s _ _ _ tt (versioning-advance q1 h1 d s ready there dec rv)))
          (second_step s s _ _ _ tt (versioning-advance q2 h2 d s ready there dec rv)) in
      record {
        after = s2;
        reached =
            next (next both_read (first_step s s1 _ _ _ tt (writing-advance q1 h1 d s ready there)))
              (second_step s1 s2 _ _ _ tt (writing-advance q2 h2 h1.fresh_bytes s1 ready1 there1));
        no_calls = refl;
        second_bytes = wrote-held q2 h2 h1.fresh_bytes s1 ready1 there1;
      }
