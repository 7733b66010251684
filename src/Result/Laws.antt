-- ===== src/Result/Laws.antt =====
-- Equations of actions, state by state.
use policy_server.Prelude.{◌≡◌, refl}
use policy_server.Result.{
  Error, Result, ok, err, panicked, Exec, pure, or_fail, rename, continue, ◌>>=◌,
}

module _ {S A B : Type 0} where
  pub bind_cong :
      (m : Exec S A) (f g : A → Exec S B) (s : S)
      → ((a : A) (t : S) → f a t ≡ g a t)
      → (m >>= f) s ≡ (m >>= g) s
  unfolding ◌>>=◌
  bind_cong m f g s h = go (m s)
    where
      go : (x : Result A × S) → continue x f ≡ continue x g
      go (ok a, t) = h a t
      go (err e, t) = refl
      go (panicked, t) = refl

  pub or_fail-bind :
      (h : Error → Error) (m : Exec S A) (f : A → Exec S B) (s : S)
      → or_fail h (m >>= f) s ≡ (or_fail h m >>= λ a. or_fail h (f a)) s
  unfolding or_fail ◌>>=◌
  or_fail-bind h m f s = go (m s)
    where
      go :
          (x : Result A × S)
          → rename h (continue x f) ≡ continue (rename h x) (λ a. or_fail h (f a))
      go (ok a, t) = refl
      go (err e, t) = refl
      go (panicked, t) = refl

module _ {S A B D : Type 0} where
  pub bind_assoc :
      (m : Exec S A) (f : A → Exec S B) (g : B → Exec S D) (s : S)
      → (m >>= f >>= g) s ≡ (m >>= λ a. f a >>= g) s
  unfolding ◌>>=◌
  bind_assoc m f g s = go (m s)
    where
      go : (x : Result A × S) → continue (continue x f) g ≡ continue x (λ a. f a >>= g)
      go (ok a, t) = refl
      go (err e, t) = refl
      go (panicked, t) = refl

module _ {S A : Type 0} where
  pub bind_pure : (m : Exec S A) (s : S) → (m >>= pure) s ≡ m s
  unfolding pure ◌>>=◌
  bind_pure m s = go (m s)
    where
      go : (x : Result A × S) → continue x pure ≡ x
      go (ok a, t) = refl
      go (err e, t) = refl
      go (panicked, t) = refl
