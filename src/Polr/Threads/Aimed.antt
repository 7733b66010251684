-- ===== src/Polr/Threads/Aimed.antt =====
-- A `Create` of pkg/api/polr.go that has not begun will find its key taken, or take it.
use policy_server.Prelude.{
  ℕ, ◌≡◌, refl, sym, ◌⊎◌, inl, inr, false, Option, none, some, List, [], ◌∷◌, ◌++◌, arith,
  if◌then◌else◌,
}
use policy_server.Prelude.Texts.{Text, text_eq, text_eq_refl}
use policy_server.Result.{Result, ok, err, panicked, pure, or_fail, ◌>>=◌}
use policy_server.Storage.{Storage}
use policy_server.Storage.Contract.{Contract}
use policy_server.Storage.GoMap.{lookup}
use policy_server.Report.{Platform, report}
use policy_server.Handler.{
  ReportOf, State, is_dry_run, Accepts, check_validation-Accepts, as_report,
}
use policy_server.Polr.{key, create_polr, default_namespace, cannot_create}
use policy_server.Polr.Create.{stamped}
use policy_server.Polr.Reads.{held}
use policy_server.Polr.Progress.{Encodes}
use policy_server.Polr.Threads.{
  Work, creates, tries, CreateRequest, Thread, create_asked, telling, Outcome, create_step, settle,
  advance, System, IsRunning, Step, pick, Schedule, begin, next,
}
use policy_server.Polr.Threads.Ends.{AreFinished}
use policy_server.Polr.Threads.Vacancy.{vacant, vacancy}
use policy_server.Polr.Threads.Balance.{deletes, Step-kept, Schedule-Balanced}

module _ (P : Platform) (S : Storage) (C : Contract S) (k : Text) where
  -- A `Create`, no dry run, of a report that passes validation and belongs to the key.
  pub record Aims (q : CreateRequest P S) : Type 0 where
    pub aim : ReportOf P
    pub is_report : q.new_object ≡ report aim
    pub accepted : Accepts P S (q.validate_new (report aim)) q.create_options
    pub wet : is_dry_run q.create_options ≡ false
    pub at_key :
        let r = default_namespace P S q.create_namespace aim in
        key P.group_version r.name r.namespace ≡ k

  abbrev pub IsAimed : Thread P S → Type 0
  IsAimed (create_asked q) = Aims q
  IsAimed _ = ⊥

  -- Some thread has yet to create a report of the key.
  abbrev pub HasAimed : List (Thread P S) → Type 0
  HasAimed [] = ⊥
  HasAimed (p ∷ ps) = IsAimed p ⊎ HasAimed ps

  taken : (v w : Text) (old : Option Text) → vacant (if text_eq v v then some w else old) ≡ 0
  unfolding vacant
  taken v w old = rw (text_eq_refl v) refl

  create_polr-takes :
      (r : ReportOf P) (d : Text) (s : State P S)
      → C.Ready s.store
      → P.marshal (stamped P S C r s.world) ≡ ok d
      → key P.group_version r.name r.namespace ≡ k
      → vacancy P S C k
          ((or_fail (cannot_create P S) (create_polr P S r) >>= λ r'.
              pure {A = Outcome P S} (inl r'))
            s).1
        ≡ 0
  unfolding create_polr pure vacant ◌>>=◌
  create_polr-takes r d s ready m at_key =
      rw (sym at_key) (go (held P S C r.name r.namespace s) refl)
    where
      j : Text
      j = key P.group_version r.name r.namespace

      go :
          (y : Option Text)
          → lookup j (C.entries s.store) ≡ y
          → vacancy P S C j
              ((or_fail (cannot_create P S) (create_polr P S r) >>= λ r'.
                  pure {A = Outcome P S} (inl r'))
                s).1
            ≡ 0
      go none f =
          let (done, entries) = C.create_new j d s.store ready f in
          rw (m, done, entries j) (taken j d _)
      go (some old) f = rw (m, C.create_present j d old s.store ready f, f) refl

  create_step-takes :
      (q : CreateRequest P S) (s : State P S)
      → Encodes P
      → Aims q
      → C.Ready s.store
      → vacancy P S C k (create_step P S q s).1 ≡ 0
  unfolding create_step as_report ◌>>=◌
  create_step-takes q s encodes a ready =
      let r = default_namespace P S q.create_namespace a.aim in
      let (d, m) = encodes (stamped P S C r s.world) in
      rw
        (
          a.is_report,
          check_validation-Accepts P S (q.validate_new (report a.aim)) q.create_options s
              a.accepted,
          a.wet,
        )
        (create_polr-takes r d s ready m a.at_key)

  settle-state :
      (work : Work P S) (go_on : ReportOf P → Thread P S) (x : Result (Outcome P S) × State P S)
      → (settle P S work go_on x).1 ≡ x.1
  settle-state work go_on (ok (inl r), t) = refl
  settle-state work go_on (ok (inr obj), t) = refl
  settle-state work go_on (err x, t) = refl
  settle-state work go_on (panicked, t) = refl

  advance-takes :
      (p : Thread P S) (s : State P S)
      → Encodes P
      → IsAimed p
      → C.Ready s.store
      → vacancy P S C k (advance P S p s).1 ≡ 0
  unfolding advance
  advance-takes (create_asked q) s encodes a ready =
      rw (settle-state tries (λ r. telling (creates r) r) (create_step P S q s))
        (create_step-takes q s encodes a ready)
  advance-takes _ s encodes a ready = elim a [ ]

  HasAimed-append :
      (before : List (Thread P S)) (p : Thread P S) (after : List (Thread P S))
      → HasAimed (before ++ (p ∷ after))
      → IsAimed p ⊎ ((p' : Thread P S) → HasAimed (before ++ (p' ∷ after)))
  HasAimed-append [] p after (inl a) = inl a
  HasAimed-append [] p after (inr h) = inr λ p'. inr h
  HasAimed-append (q ∷ before) p after (inl a) = inr λ p'. inl a
  HasAimed-append (q ∷ before) p after (inr h) = elim (HasAimed-append before p after h) [
    | inl a ↦ inl a
    | inr rest ↦ inr λ p'. inr (rest p')
  ]

  pub finished-not_aimed : (ps : List (Thread P S)) → AreFinished P S ps → HasAimed ps → ⊥
  finished-not_aimed [] all h = h
  finished-not_aimed (p ∷ ps) (ended, all) (inl a) = ended (aimed-runs p a)
    where
      aimed-runs : (p : Thread P S) → IsAimed p → IsRunning P S p
      aimed-runs (create_asked q) a = tt
      aimed-runs _ a = elim a [ ]
  finished-not_aimed (p ∷ ps) (ended, all) (inr h) = finished-not_aimed ps all h

  -- The key is taken, or a thread has yet to take it.
  abbrev pub Pending : System P S → Type 0
  Pending s = (vacancy P S C k s.shared ≡ 0) ⊎ HasAimed s.threads

  Step-Pending :
      {s t : System P S}
      → Encodes P
      → C.Ready s.shared.store
      → deletes P S s.threads ≡ 0
      → Step P S s t
      → Pending s
      → Pending t
  Step-Pending {s} {t} encodes ready none_deleted e (inl taken) =
      let kept = Step-kept P S C k ready e in inl (omega (arith, kept, none_deleted, taken))
  Step-Pending {s} {t} encodes ready none_deleted (pick before p after was run now same) (inr h) =
      elim (HasAimed-append before p after (rw was at h)) [
        | inl a ↦ inl (rw same (advance-takes p s.shared encodes a ready))
        | inr rest ↦ inr (rw now (rest _))
      ]

  pub Schedule-Pending :
      {s t : System P S} {n : ℕ}
      → Encodes P
      → C.Ready s.shared.store
      → deletes P S s.threads ≡ 0
      → Schedule P S s n t
      → Pending s
      → Pending t
  Schedule-Pending encodes ready none_deleted begin h = h
  Schedule-Pending encodes ready none_deleted (next c e) h =
      let b = Schedule-Balanced P S C k ready c in
      let less = b.no_more in
      Step-Pending encodes b.ready (omega (arith, less, none_deleted)) e
        (Schedule-Pending encodes ready none_deleted c h)
