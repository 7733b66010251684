-- ===== src/Polr/Threads/Gains.antt =====
-- The steps of the threads of pkg/api/polr.go that take a key or free it.
use policy_server.Prelude.{
  ℕ, ◌≡◌, refl, ◌∙◌, subst, inl, inr, Bool, true, false, Option, none, some, ◌+◌, arith,
  if◌then◌else◌,
}
use policy_server.Prelude.Texts.{Text, text_eq, text_eq_iff}
use policy_server.Result.{Result, ok, err, panicked, pure, or_fail, continue, ◌>>=◌}
use policy_server.Result.Keeps.{Keeps}
use policy_server.Storage.{Storage}
use policy_server.Storage.Contract.{Contract}
use policy_server.Storage.GoMap.{lookup}
use policy_server.Report.{Platform}
use policy_server.Handler.{ReportOf, ObjectOf, State, Handler, is_dry_run}
use policy_server.Polr.{delete_polr, parsed, key, create_polr, cannot_create}
use policy_server.Polr.Create.{stamped}
use policy_server.Polr.Threads.{remove_step, CreateRequest, Outcome, create_step}
use policy_server.Strconv.{ℤ, parse_int}
use policy_server.Polr.Threads.Counts.{mine}
use policy_server.Polr.Threads.Vacancy.{
  vacant, vacancy, Vacancy, check_validation-Vacancy, as_report-Vacancy,
}

module _ (P : Platform) (S : Storage) (C : Contract S) (k : Text) where
  -- One if the outcome goes on with a report of the key.
  abbrev pub gained : Result (Outcome P S) → ℕ
  gained (ok (inl r)) = mine P S k r
  gained _ = 0

  -- The step gains the key exactly if it takes it.
  pub record Balances (m : Handler P S (Outcome P S)) : Type 0 where
    pub after :
        (s : State P S)
        → C.Ready s.store
        → C.Ready (m s).1.store × (gained (m s).0 + vacancy P S C k (m s).1 ≡ vacancy P S C k s)

  bind-Balances :
      {A : Type 0} (m : Handler P S A) (f : A → Handler P S (Outcome P S))
      → ((v : ℕ) → Keeps (Vacancy P S C k v) m)
      → ((a : A) → Balances (f a))
      → Balances (m >>= f)
  unfolding ◌>>=◌
  bind-Balances {A} m f h b = record {
    after = λ s ready.
        go s (m s) ((h (vacancy P S C k s)).after s (record { ready = ready; count = refl }));
  }
    where
      go :
          (s : State P S) (x : Result A × State P S)
          → Vacancy P S C k (vacancy P S C k s) x.1
          → C.Ready (continue x f).1.store
            × (gained (continue x f).0 + vacancy P S C k (continue x f).1 ≡ vacancy P S C k s)
      go s (ok a, t) i = let (r, e) = (b a).after t i.ready in (r, e ∙ i.count)
      go s (err e, t) i = (i.ready, let h = i.count in omega (arith, h))
      go s (panicked, t) i = (i.ready, let h = i.count in omega (arith, h))

  if-Balances :
      (b : Bool) (m n : Handler P S (Outcome P S))
      → Balances m
      → Balances n
      → Balances (if b then m else n)
  if-Balances true m n h g = h
  if-Balances false m n h g = g

  pure-Balances : (obj : ObjectOf P) → Balances (pure (inr obj))
  unfolding pure
  pure-Balances obj = record { after = λ s ready. (ready, omega arith) }

  gains :
      (same : Bool) (old : Option Text) (d : Text)
      → (same ≡ true → old ≡ none)
      → (if same then 1 else 0) + vacant (if same then some d else old) ≡ vacant old
  unfolding vacant
  gains true old d h = rw (h refl) refl
  gains false old d h = omega arith

  create_polr-Balances :
      (r : ReportOf P)
      → Balances (or_fail (cannot_create P S) (create_polr P S r) >>= λ r'. pure (inl r'))
  unfolding create_polr pure ◌>>=◌
  create_polr-Balances r = record {
    after = λ s ready.
        go s ready (P.marshal (stamped P S C r s.world)) refl
          (lookup (key P.group_version r.name r.namespace) (C.entries s.store)) refl;
  }
    where
      step : Handler P S (Outcome P S)
      step = or_fail (cannot_create P S) (create_polr P S r) >>= λ r'. pure (inl r')

      go :
          (s : State P S)
          → C.Ready s.store
          → (m : Result Text) → P.marshal (stamped P S C r s.world) ≡ m
          → (y : Option Text)
          → lookup (key P.group_version r.name r.namespace) (C.entries s.store) ≡ y
          → C.Ready (step s).1.store
            × (gained (step s).0 + vacancy P S C k (step s).1 ≡ vacancy P S C k s)
      go s ready (err x) e y f = rw e (ready, omega arith)
      go s ready panicked e y f = rw e (ready, omega arith)
      go s ready (ok d) e (some old) f =
          rw e (rw (C.create_present _ d old s.store ready f) (ready, omega arith))
      go s ready (ok d) e none f =
          let j = key P.group_version r.name r.namespace in
          let (done, entries) = C.create_new j d s.store ready f in
          rw (e, done, entries k)
            (
              C.create-Ready j d s.store ready,
              gains (text_eq j k) (lookup k (C.entries s.store)) d (λ same.
                  subst (λ x. lookup x (C.entries s.store) ≡ none) ((text_eq_iff j k).0 same) f),
            )

  pub create_step-Balances : (q : CreateRequest P S) → Balances (create_step P S q)
  unfolding create_step
  create_step-Balances q =
      bind-Balances _ _ (λ v. check_validation-Vacancy P S C k v _ _)
        λ _.
          bind-Balances _ _ (λ v. as_report-Vacancy P S C k v _ _)
            λ polr.
              if-Balances (is_dry_run q.create_options) _ _ (pure-Balances _)
                (create_polr-Balances _)

  releases :
      (same : Bool) (old : Option Text) (d : Text)
      → (same ≡ true → old ≡ some d)
      → vacant {A = Text} (if same then none else old) ≡ (if same then 1 else 0) + vacant old
  unfolding vacant
  releases true old d h = rw (h refl) refl
  releases false old d h = omega arith

  -- The step gains the key exactly if it frees it.
  pub remove_step-frees :
      (r : ReportOf P) (s : State P S)
      → C.Ready s.store
      → C.Ready (remove_step P S r s).1.store
        × (vacancy P S C k (remove_step P S r s).1
            ≡ gained (remove_step P S r s).0 + vacancy P S C k s)
  unfolding remove_step delete_polr pure ◌>>=◌
  remove_step-frees r s ready =
      go (parsed (parse_int r.resource_version)) refl
        (lookup (key P.group_version r.name r.namespace) (C.entries s.store)) refl
    where
      j : Text
      j = key P.group_version r.name r.namespace

      go :
          (m : Result ℤ)
          → parsed (parse_int r.resource_version) ≡ m
          → (y : Option Text) → lookup j (C.entries s.store) ≡ y
          → C.Ready (remove_step P S r s).1.store
            × (vacancy P S C k (remove_step P S r s).1
                ≡ gained (remove_step P S r s).0 + vacancy P S C k s)
      go (err x) e y f = rw e (ready, omega arith)
      go panicked e y f = rw e (ready, omega arith)
      go (ok n) e none f = rw e (rw (C.delete_missing j n s.store ready f) (ready, omega arith))
      go (ok n) e (some old) f =
          let (done, entries) = C.delete_found j old n s.store ready f in
          rw (e, done, entries k)
            (
              C.delete-Ready j n s.store ready,
              releases (text_eq j k) (lookup k (C.entries s.store)) old (λ same.
                  subst (λ x. lookup x (C.entries s.store) ≡ some old) ((text_eq_iff j k).0 same)
                    f),
            )
