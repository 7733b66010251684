-- ===== src/Result/Keeps.antt =====
-- Invariants of actions: one rule for each way in which the handlers build an action. A rule for a
-- step that yields a value hands the rest of the action the equation that the value came from.
use policy_server.Prelude.{◌≡◌, refl, subst, Bool, true, false, if◌then◌else◌}
use policy_server.Result.{
  Error, Result, ok, err, panicked, Exec, pure, raise, lift, or_fail, attempt, rename, ignore,
  continue, ◌>>=◌,
}

-- Whatever the outcome, the invariant is true again when the action ends.
pub record Keeps {S A : Type 0} (I : S → Type 0) (m : Exec S A) : Type 0 where
  pub after : (s : S) → I s → I (m s).1

module _ {S : Type 0} {I : S → Type 0} where
  pub pure-Keeps : {A : Type 0} (a : A) → Keeps I (pure a)
  unfolding pure
  pure-Keeps a = record { after = λ s i. i }

  pub raise-Keeps : {A : Type 0} (e : Error) → Keeps I (raise {A = A} e)
  unfolding raise
  raise-Keeps e = record { after = λ s i. i }

  pub lift-Keeps : {A : Type 0} (r : Result A) → Keeps I (lift r)
  unfolding lift
  lift-Keeps r = record { after = λ s i. i }

  pub or_fail-Keeps :
      {A : Type 0} (f : Error → Error) (m : Exec S A) → Keeps I m → Keeps I (or_fail f m)
  unfolding or_fail
  or_fail-Keeps {A} f m h = record { after = λ s i. renamed (m s) (h.after s i) }
    where
      renamed : (x : Result A × S) → I x.1 → I (rename f x).1
      renamed (ok a, t) i = i
      renamed (err e, t) i = i
      renamed (panicked, t) i = i

  pub attempt-Keeps : {A : Type 0} (m : Exec S A) → Keeps I m → Keeps I (attempt m)
  unfolding attempt
  attempt-Keeps {A} m h = record { after = λ s i. ignored (m s) (h.after s i) }
    where
      ignored : (x : Result A × S) → I x.1 → I (ignore x).1
      ignored (ok a, t) i = i
      ignored (err e, t) i = i
      ignored (panicked, t) i = i

  pub if-Keeps :
      {A : Type 0} (b : Bool) (m n : Exec S A)
      → Keeps I m
      → Keeps I n
      → Keeps I (if b then m else n)
  if-Keeps true m n h k = h
  if-Keeps false m n h k = k

  pub bind-Keeps :
      {A B : Type 0} (m : Exec S A) (f : A → Exec S B)
      → Keeps I m
      → ((a : A) → Keeps I (f a))
      → Keeps I (m >>= f)
  unfolding ◌>>=◌
  bind-Keeps {A} m f h k = record { after = λ s i. continued (m s) (h.after s i) }
    where
      continued : (x : Result A × S) → I x.1 → I (continue x f).1
      continued (ok a, t) i = (k a).after t i
      continued (err e, t) i = i
      continued (panicked, t) i = i

  pub bind_pure-Keeps :
      {A B : Type 0} (a : A) (f : A → Exec S B) → Keeps I (f a) → Keeps I (pure a >>= f)
  unfolding ◌>>=◌
  bind_pure-Keeps a f h = record { after = h.after }

  -- The rest may use where the value came from.
  pub bind_lift-Keeps :
      {A B : Type 0} (g : Error → Error) (r : Result A) (f : A → Exec S B)
      → ((a : A) → r ≡ ok a → Keeps I (f a))
      → Keeps I (or_fail g (lift r) >>= f)
  unfolding ◌>>=◌
  bind_lift-Keeps g (ok a) f k = record { after = (k a refl).after }
  bind_lift-Keeps g (err e) f k = record { after = λ s i. i }
  bind_lift-Keeps g panicked f k = record { after = λ s i. i }

-- What an action returns satisfies `Q`.
pub record Yields {S A : Type 0} (Q : A → Type 0) (m : Exec S A) : Type 0 where
  pub result : (s : S) (a : A) → (m s).0 ≡ ok a → Q a

module _ {S : Type 0} where
  pub pure-Yields : {A : Type 0} (Q : A → Type 0) (a : A) → Q a → Yields {S = S} Q (pure a)
  unfolding pure
  pure-Yields {A} Q a q = record { result = λ s b e. subst Q (ok_injective e) q }
    where
      ok_injective : {b : A} → ok a ≡ ok b → a ≡ b
      ok_injective e = cc

  pub bind-Yields :
      {A B : Type 0} (Q : B → Type 0) (m : Exec S A) (f : A → Exec S B)
      → ((a : A) → Yields Q (f a))
      → Yields Q (m >>= f)
  unfolding ◌>>=◌
  bind-Yields {A} {B} Q m f k = record { result = λ s. continued (m s) }
    where
      continued : (x : Result A × S) (b : B) → (continue x f).0 ≡ ok b → Q b
      continued (ok a, t) b e = (k a).result t b e
      continued (err y, t) b e = absurd (cc)
      continued (panicked, t) b e = absurd (cc)

  pub bind_lift-Yields :
      {A B : Type 0} (Q : B → Type 0) (g : Error → Error) (r : Result A) (f : A → Exec S B)
      → ((a : A) → r ≡ ok a → Yields Q (f a))
      → Yields Q (or_fail g (lift r) >>= f)
  unfolding ◌>>=◌
  bind_lift-Yields Q g (ok a) f k = record { result = (k a refl).result }
  bind_lift-Yields Q g (err e) f k = record { result = λ s b h. absurd (cc) }
  bind_lift-Yields Q g panicked f k = record { result = λ s b h. absurd (cc) }

  pub bind_yield-Keeps :
      {A B : Type 0} {I : S → Type 0} (Q : A → Type 0) (m : Exec S A) (f : A → Exec S B)
      → Keeps I m
      → Yields Q m
      → ((a : A) → Q a → Keeps I (f a))
      → Keeps I (m >>= f)
  unfolding ◌>>=◌
  bind_yield-Keeps {A} {I} Q m f h y k = record {
    after = λ s i. continued (m s) (h.after s i) (y.result s);
  }
    where
      continued : (x : Result A × S) → I x.1 → ((a : A) → x.0 ≡ ok a → Q a) → I (continue x f).1
      continued (ok a, t) i q = (k a (q a refl)).after t i
      continued (err e, t) i q = i
      continued (panicked, t) i q = i

pub ruleset keeps_rules =
    (pure-Keeps, raise-Keeps, lift-Keeps, or_fail-Keeps, attempt-Keeps, if-Keeps, bind-Keeps)
