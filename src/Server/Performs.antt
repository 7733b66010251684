-- ===== src/Server/Performs.antt =====
-- Rules for what a sequence of steps does: the first step that fails ends it.
use mathlib.Core.List.{append_assoc, append-nil}
use policy_server.Prelude.{
  ◌≡◌, refl, sym, ◌∙◌, Bool, true, false, Option, none, some, List, [], ◌∷◌, ◌++◌, if◌then◌else◌,
  arith,
}
use policy_server.Result.{
  Error, Result, ok, err, panicked, pure, or_fail, rename, continue, ◌>>=◌, ◌>>◌,
}
use policy_server.Server.{
  Step, print_version, register_apiserver_metrics, handle_metrics, Host, Startup, call, run,
}

module _ (H : Host) where
  abbrev pub is_error : Option Error → Bool
  is_error none = false
  is_error (some e) = true

  -- The step returns an error.
  abbrev pub fails : Step → Bool
  fails print_version = false
  fails register_apiserver_metrics = false
  fails handle_metrics = false
  fails step = is_error (H.answer step)

  -- The steps up to the first one that fails, and that one.
  abbrev pub until_failure : List Step → List Step
  until_failure [] = []
  until_failure (step ∷ steps) =
      let rest = until_failure steps in if fails step then step ∷ [] else step ∷ rest

  abbrev pub all_succeed : List Step → Bool
  all_succeed [] = true
  all_succeed (step ∷ steps) = let rest = all_succeed steps in if fails step then false else rest

  -- A value where all steps succeed, and an error where one fails.
  abbrev pub Ends : Result (Unit {0}) → Bool → Type 0
  Ends (ok _) true = Unit
  Ends (err e) false = Unit
  Ends _ _ = ⊥

  -- What an action adds to the calls made, and how it ends.
  pub record Performs (m : Startup H (Unit {0})) (steps : List Step) : Type 0 where
    pub trace : (made : List Step) → (m made).1 ≡ made ++ until_failure steps
    pub ending : (made : List Step) → Ends (m made).0 (all_succeed steps)

  pub call-Performs :
      (step : Step) → fails step ≡ is_error (H.answer step) → Performs (call H step) (step ∷ [])
  call-Performs step e = record {
    trace = λ made. ground (arith, e);
    ending = λ made. ground (arith, e);
  }

  pub run-Performs : (step : Step) → fails step ≡ false → Performs (run H step) (step ∷ [])
  run-Performs step e = record {
    trace = λ made. ground (arith, e);
    ending = λ made. ground (arith, e);
  }

  pub pure-Performs : Performs (pure tt) []
  unfolding pure
  pure-Performs = record { trace = λ made. sym (append-nil made); ending = λ made. tt }

  pub or_fail-Performs :
      (f : Error → Error) (m : Startup H (Unit {0})) (steps : List Step)
      → Performs m steps
      → Performs (or_fail f m) steps
  unfolding or_fail
  or_fail-Performs f m steps h = record {
    trace = λ made. same_trace (m made) ∙ h.trace made;
    ending = λ made. same_ending (all_succeed steps) (m made) (h.ending made);
  }
    where
      same_trace : (x : Result (Unit {0}) × List Step) → (rename f x).1 ≡ x.1
      same_trace (ok a, made) = refl
      same_trace (err e, made) = refl
      same_trace (panicked, made) = refl

      same_ending :
          (b : Bool) (x : Result (Unit {0}) × List Step) → Ends x.0 b → Ends (rename f x).0 b
      same_ending true (ok a, made) e = e
      same_ending false (ok a, made) e = e
      same_ending true (err x, made) e = e
      same_ending false (err x, made) e = e
      same_ending b (panicked, made) e = e

  all_succeed-append :
      (a b : List Step) → all_succeed (a ++ b) ≡ (if all_succeed a then all_succeed b else false)
  all_succeed-append [] b = refl
  all_succeed-append (step ∷ a) b = ground (arith, all_succeed-append a b)

  until_failure-append :
      (a b : List Step)
      → until_failure (a ++ b) ≡ until_failure a ++ (if all_succeed a then until_failure b else [])
  until_failure-append [] b = refl
  until_failure-append (step ∷ a) b = ground (arith, until_failure-append a b)

  pub bind-Performs :
      (m n : Startup H (Unit {0})) (a b : List Step)
      → Performs m a
      → Performs n b
      → Performs (m >> n) (a ++ b)
  unfolding ◌>>=◌
  bind-Performs m n a b h k = record {
    trace = λ made.
        rw (until_failure-append a b)
          (go made (m made) (h.trace made) (all_succeed a) refl (h.ending made));
    ending =
        λ made. rw (all_succeed-append a b) (end (m made) (all_succeed a) refl (h.ending made));
  }
    where
      go :
          (made : List Step) (x : Result (Unit {0}) × List Step)
          → x.1 ≡ made ++ until_failure a
          → (c : Bool) → all_succeed a ≡ c
          → Ends x.0 c
          → (continue x (λ _. n)).1
            ≡ made ++ (until_failure a ++ (if c then until_failure b else []))
      go made (ok u, t) e true s end =
          k.trace t ∙ (rw e (append_assoc made (until_failure a) (until_failure b)))
      go made (err x, t) e false s end = rw e (rw append-nil refl)
      go made (ok u, t) e false s end = elim end [ ]
      go made (err x, t) e true s end = elim end [ ]
      go made (panicked, t) e c s end = elim end [ ]

      end :
          (x : Result (Unit {0}) × List Step)
          → (c : Bool) → all_succeed a ≡ c
          → Ends x.0 c
          → Ends (continue x (λ _. n)).0 (if c then all_succeed b else false)
      end (ok u, t) true s e = k.ending t
      end (err x, t) false s e = tt
      end (ok u, t) false s e = elim e [ ]
      end (err x, t) true s e = elim e [ ]
      end (panicked, t) c s e = elim e [ ]

  -- A call before others.
  pub then-Performs :
      (m n : Startup H (Unit {0})) (step : Step) (steps : List Step)
      → Performs m (step ∷ [])
      → Performs n steps
      → Performs (m >> n) (step ∷ steps)
  then-Performs m n step steps h k = bind-Performs m n (step ∷ []) steps h k
