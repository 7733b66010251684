-- ===== src/Result.antt =====
-- Errors as values, and actions on a state that may fail.
use policy_server.Prelude.{Option, none, some}
pub mod Steps
pub mod Keeps
pub mod Laws
use policy_server.Prelude.Texts.{Text}

-- The errors that the source builds: `errors.NewNotFound`, `NewAlreadyExists`, `NewBadRequest`,
-- `errorpkg.Wrapf`, the two kinds of `strconv.NumError`, and `foreign` for what other code returns.
pub data Error : Type 0 where
  not_found : Text → Text → Error
  already_exists : Text → Text → Error
  bad_request : Text → Error
  wrapped : Text → Error → Error
  invalid_syntax : Text → Error
  out_of_range : Text → Error
  foreign : Text → Error

-- A Go call returns a value, returns an error, or panics.
pub data Result {ℓ} (A : Type ℓ) : Type ℓ where
  ok : A → Result A
  err : Error → Result A
  panicked : Result A

-- What a call did before it failed stays done, so the state comes back in every case.
abbrev pub Exec {ℓ} : Type ℓ → Type ℓ → Type ℓ
Exec S A = S → Result A × S

module _ {ℓ} {S A : Type ℓ} where
  unfoldable pub pure : A → Exec S A
  pure a s = (ok a, s)

  unfoldable pub raise : Error → Exec S A
  raise e s = (err e, s)

  unfoldable pub lift : Result A → Exec S A
  lift r s = (r, s)

  abbrev pub rename : (Error → Error) → Result A × S → Result A × S
  rename f (ok a, s) = (ok a, s)
  rename f (err e, s) = (err (f e), s)
  rename f (panicked, s) = (panicked, s)

  -- `if err != nil { return ..., f(err) }`
  unfoldable pub or_fail : (Error → Error) → Exec S A → Exec S A
  or_fail f m s = rename f (m s)

  abbrev pub ignore : Result A × S → Result (Option A) × S
  ignore (ok a, s) = (ok (some a), s)
  ignore (err e, s) = (ok none, s)
  ignore (panicked, s) = (panicked, s)

  -- `x, _ := m`: the error is dropped, and a failed call gives the nil pointer.
  unfoldable pub attempt : Exec S A → Exec S (Option A)
  attempt m s = ignore (m s)

module _ {ℓ} {S A B : Type ℓ} where
  abbrev pub continue : Result A × S → (A → Exec S B) → Result B × S
  continue (ok a, s) f = f a s
  continue (err e, s) f = (err e, s)
  continue (panicked, s) f = (panicked, s)

  infixl 10 ◌>>=◌ ◌>>◌
  -- Opening this opens the actions above too.
  unfoldable pub ◌>>=◌ : Exec S A → (A → Exec S B) → Exec S B
  unfolding pure raise lift or_fail attempt
  ◌>>=◌ m f s = continue (m s) f

  abbrev pub ◌>>◌ : Exec S A → Exec S B → Exec S B
  m >> n = m >>= λ _. n

-- The call returned an error or panicked.
abbrev pub Failed {ℓ} : {A : Type ℓ} → Result A → Type 0
Failed (ok a) = ⊥
Failed (err e) = Unit
Failed panicked = Unit
