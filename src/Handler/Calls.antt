-- ===== src/Handler/Calls.antt =====
-- How many calls an action makes to the broadcaster when it returns.
use policy_server.Prelude.{ℕ, ◌+◌, ◌≡◌, refl, List, [], ◌∷◌, ◌++◌, arith}
use policy_server.Result.{
  Error, Result, ok, err, panicked, Exec, pure, raise, lift, or_fail, rename, continue, ◌>>=◌,
}
use policy_server.Storage.{Storage}
use policy_server.Report.{Platform}
use policy_server.Handler.{Call, EventType, ObjectOf, State, Handler, stored, broadcast, call_count}

module _ (P : Platform) (S : Storage) where
  pub call_count-append :
      (cs : List (Call P)) (c : Call P) → call_count P S (cs ++ (c ∷ [])) ≡ call_count P S cs + 1
  call_count-append [] c = omega arith
  call_count-append (b ∷ cs) c = omega (arith, call_count-append cs c)

  -- An action that returns has made `n` calls.
  pub record Calls {A : Type 0} (n : ℕ) (m : Handler P S A) : Type 0 where
    pub counted :
        (s : State P S) (a : A)
        → (m s).0 ≡ ok a
        → call_count P S (m s).1.calls ≡ call_count P S s.calls + n

  pub Calls-pure : {A : Type 0} (a : A) → Calls 0 (pure a)
  unfolding pure
  Calls-pure a = record { counted = λ s b e. omega arith }

  pub Calls-raise : {A : Type 0} (e : Error) → Calls {A = A} 0 (raise e)
  unfolding raise
  Calls-raise e = record { counted = λ s b h. omega arith }

  pub Calls-lift : {A : Type 0} (r : Result A) → Calls 0 (lift r)
  unfolding lift
  Calls-lift r = record { counted = λ s b e. omega arith }

  pub Calls-stored : {A : Type 0} (m : Exec S.State A) → Calls 0 (stored P S m)
  Calls-stored m = record { counted = λ s b e. omega arith }

  pub Calls-broadcast :
      (kind : EventType) (object : ObjectOf P) → Calls 1 (broadcast P S kind object)
  Calls-broadcast kind object = record { counted = λ s b e. call_count-append s.calls _ }

  pub Calls-or_fail :
      {A : Type 0} (n : ℕ) (f : Error → Error) (m : Handler P S A)
      → Calls n m
      → Calls n (or_fail f m)
  unfolding or_fail
  Calls-or_fail {A} n f m h = record { counted = λ s. go s (m s) (h.counted s) }
    where
      go :
          (s : State P S) (x : Result A × State P S)
          → ((a : A) → x.0 ≡ ok a → call_count P S x.1.calls ≡ call_count P S s.calls + n)
          → (a : A) → (rename f x).0 ≡ ok a
          → call_count P S (rename f x).1.calls ≡ call_count P S s.calls + n
      go s (ok b, t) g a e = g a e
      go s (err y, t) g a e = cc
      go s (panicked, t) g a e = cc

  pub Calls-bind :
      {A B : Type 0} (i j : ℕ) (m : Handler P S A) (f : A → Handler P S B)
      → Calls i m
      → ((a : A) → Calls j (f a))
      → Calls (i + j) (m >>= f)
  unfolding ◌>>=◌
  Calls-bind {A} {B} i j m f h k = record { counted = λ s. go s (m s) (h.counted s) }
    where
      go :
          (s : State P S) (x : Result A × State P S)
          → ((a : A) → x.0 ≡ ok a → call_count P S x.1.calls ≡ call_count P S s.calls + i)
          → (b : B) → (continue x f).0 ≡ ok b
          → call_count P S (continue x f).1.calls ≡ call_count P S s.calls + (i + j)
      go s (ok a, t) g b e = omega (arith, g a refl, (k a).counted t b e)
      go s (err y, t) g b e = cc
      go s (panicked, t) g b e = cc

  pub ruleset calls_rules = (
    Calls-pure, Calls-raise, Calls-lift, Calls-stored, Calls-broadcast, Calls-or_fail, Calls-bind,
  )
