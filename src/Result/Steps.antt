-- ===== src/Result/Steps.antt =====
-- Rules for actions that only read, and for actions that change nothing when they fail.
use policy_server.Prelude.{◌≡◌, refl, sym, subst, Bool, true, false, if◌then◌else◌}
use policy_server.Result.{
  Error, Result, ok, err, panicked, Exec, pure, raise, lift, or_fail, attempt, rename, ignore,
  continue, ◌>>=◌, Failed,
}

-- The action ends in the state that it began in.
pub record Still {S A : Type 0} (m : Exec S A) (s : S) : Type 0 where
  pub same : (m s).1 ≡ s

-- If the action fails, `R` joins the states before and after it.
pub record Atomic {S A : Type 0} (R : S → S → Type 0) (m : Exec S A) (s : S) : Type 0 where
  pub on_failure : Failed (m s).0 → R s (m s).1

module _ {S A : Type 0} where
  pub Still-pure : (a : A) (s : S) → Still (pure a) s
  unfolding pure
  Still-pure a s = record { same = refl }

  pub Still-raise : (e : Error) (s : S) → Still (raise {A = A} e) s
  unfolding raise
  Still-raise e s = record { same = refl }

  pub Still-lift : (r : Result A) (s : S) → Still (lift r) s
  unfolding lift
  Still-lift r s = record { same = refl }

  rename_state : (f : Error → Error) (x : Result A × S) → (rename f x).1 ≡ x.1
  rename_state f (ok a, t) = refl
  rename_state f (err e, t) = refl
  rename_state f (panicked, t) = refl

  ignore_state : (x : Result A × S) → (ignore x).1 ≡ x.1
  ignore_state (ok a, t) = refl
  ignore_state (err e, t) = refl
  ignore_state (panicked, t) = refl

  pub Still-or_fail : (f : Error → Error) (m : Exec S A) (s : S) → Still m s → Still (or_fail f m) s
  unfolding or_fail
  Still-or_fail f m s h = record { same = rw (rename_state f (m s)) h.same }

  pub Still-attempt : (m : Exec S A) (s : S) → Still m s → Still (attempt m) s
  unfolding attempt
  Still-attempt m s h = record { same = rw (ignore_state (m s)) h.same }

  pub Still-if :
      (b : Bool) (m n : Exec S A) (s : S) → Still m s → Still n s → Still (if b then m else n) s
  Still-if true m n s h k = h
  Still-if false m n s h k = k

module _ {S A B : Type 0} where
  pub Still-bind :
      (m : Exec S A) (f : A → Exec S B) (s : S)
      → Still m s
      → ((a : A) → Still (f a) s)
      → Still (m >>= f) s
  unfolding ◌>>=◌
  Still-bind m f s h k = record { same = go (m s) h.same }
    where
      go : (x : Result A × S) → x.1 ≡ s → (continue x f).1 ≡ s
      go (ok a, t) e = subst (λ u. (f a u).1 ≡ s) (sym e) (k a).same
      go (err x, t) e = e
      go (panicked, t) e = e

module _ {S : Type 0} (R : S → S → Type 0) (R-refl : (s : S) → R s s) where
  pub Atomic-Still : {A : Type 0} (m : Exec S A) (s : S) → Still m s → Atomic R m s
  Atomic-Still m s h = record { on_failure = λ _. subst (R s) (sym h.same) (R-refl s) }

  pub Atomic-if :
      {A : Type 0} (b : Bool) (m n : Exec S A) (s : S)
      → Atomic R m s
      → Atomic R n s
      → Atomic R (if b then m else n) s
  Atomic-if true m n s h k = h
  Atomic-if false m n s h k = k

  -- After a step that only reads.
  pub Atomic-bind :
      {A B : Type 0} (m : Exec S A) (f : A → Exec S B) (s : S)
      → Still m s
      → ((a : A) → Atomic R (f a) s)
      → Atomic R (m >>= f) s
  unfolding ◌>>=◌
  Atomic-bind {A} {B} m f s h k = record { on_failure = go (m s) h.same }
    where
      go : (x : Result A × S) → x.1 ≡ s → Failed (continue x f).0 → R s (continue x f).1
      go (ok a, t) e = subst (λ u. Failed (f a u).0 → R s (f a u).1) (sym e) (k a).on_failure
      go (err x, t) e = λ _. subst (R s) (sym e) (R-refl s)
      go (panicked, t) e = λ _. subst (R s) (sym e) (R-refl s)

-- The action always returns.
pub record Total {S A : Type 0} (m : Exec S A) : Type 0 where
  pub returns : (s : S) → Failed (m s).0 → ⊥

module _ {S A : Type 0} where
  pub Total-pure : (a : A) → Total {S = S} (pure a)
  unfolding pure
  Total-pure a = record { returns = λ s f. f }

module _ {S A B : Type 0} where
  pub Total-bind :
      (m : Exec S A) (f : A → Exec S B) → Total m → ((a : A) → Total (f a)) → Total (m >>= f)
  unfolding ◌>>=◌
  Total-bind m f h k = record { returns = λ s. go (m s) (h.returns s) }
    where
      go : (x : Result A × S) → (Failed x.0 → ⊥) → Failed (continue x f).0 → ⊥
      go (ok a, t) e = (k a).returns t
      go (err x, t) e = e
      go (panicked, t) e = e

  -- Before steps that always return.
  pub Atomic-end :
      (R : S → S → Type 0) (m : Exec S A) (f : A → Exec S B) (s : S)
      → Atomic R m s
      → ((a : A) → Total (f a))
      → Atomic R (m >>= f) s
  unfolding ◌>>=◌
  Atomic-end R m f s h k = record { on_failure = go (m s) h.on_failure }
    where
      go :
          (x : Result A × S)
          → (Failed x.0 → R s x.1)
          → Failed (continue x f).0
          → R s (continue x f).1
      go (ok a, t) e = λ bad. absurd ((k a).returns t bad)
      go (err x, t) e = e
      go (panicked, t) e = e

module _ {S A : Type 0} where
  pub Atomic-or_fail :
      (R : S → S → Type 0) (f : Error → Error) (m : Exec S A) (s : S)
      → Atomic R m s
      → Atomic R (or_fail f m) s
  unfolding or_fail
  Atomic-or_fail R f m s h = record { on_failure = go (m s) h.on_failure }
    where
      go : (x : Result A × S) → (Failed x.0 → R s x.1) → Failed (rename f x).0 → R s (rename f x).1
      go (ok a, t) e = e
      go (err x, t) e = e
      go (panicked, t) e = e

pub ruleset still_rules =
    (Still-pure, Still-raise, Still-lift, Still-or_fail, Still-attempt, Still-if, Still-bind)

pub ruleset atomic_rules = (still_rules, Atomic-Still, Atomic-if, Atomic-bind)
