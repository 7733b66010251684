-- ===== src/Polr/Reads.antt =====
-- `getPolr` and `Get` of pkg/api/polr.go over a storage that is a finite map.
use policy_server.Prelude.{sym, ◌∙◌, ◌≡◌, refl, ◌⊎◌, inl, inr, Option, none, some, arith}
use policy_server.Prelude.Texts.{Text, codes}
use policy_server.Result.Steps.{Still}
use policy_server.Result.{
  ◌>>=◌, or_fail, Result, ok, err, panicked, not_found, bad_request, wrapped,
}
use policy_server.Storage.{Storage}
use policy_server.Storage.Contract.{Contract}
use policy_server.Storage.GoMap.{lookup}
use policy_server.Report.{Platform}
use policy_server.Handler.{ReportOf, decode, State}
use policy_server.Polr.{key, get_polr, get}

module _ (P : Platform) (S : Storage) (C : Contract S) where
  -- The bytes stored under the key of a report.
  abbrev pub held : Text → Text → State P S → Option Text
  held name namespace s = lookup (key P.group_version name namespace) (C.entries s.store)

  pub held-cases :
      (name namespace : Text) (s : State P S)
      → (held name namespace s ≡ none) ⊎ ((d : Text) × (held name namespace s ≡ some d))
  held-cases name namespace s = go (held name namespace s) refl
    where
      go :
          (x : Option Text)
          → held name namespace s ≡ x
          → (held name namespace s ≡ none) ⊎ ((d : Text) × (held name namespace s ≡ some d))
      go none e = inl e
      go (some d) e = inr (d, e)

  -- What `getPolr` makes of the decoder's answer.
  abbrev pub read_back : Result (ReportOf P) → Result (ReportOf P)
  read_back (ok r) = ok r
  read_back (err e) = err (bad_request (codes "invalid object found"))
  read_back panicked = panicked

  pub get_polr-held :
      (name namespace d : Text) (s : State P S)
      → C.Ready s.store
      → held name namespace s ≡ some d
      → get_polr P S name namespace s ≡ (read_back (decode P d), s)
  unfolding get_polr ◌>>=◌
  get_polr-held name namespace d s ready h =
      let (v, e, p) = C.get_found (key P.group_version name namespace) d s.store ready h in
      rw e (rw p (ground arith))

  pub get_polr-missing :
      (name namespace : Text) (s : State P S)
      → C.Ready s.store
      → held name namespace s ≡ none
      → get_polr P S name namespace s ≡ (
        err (
            wrapped
              (codes "could not find policy report in store")
              (C.missing (key P.group_version name namespace))),
        s,
      )
  unfolding get_polr ◌>>=◌
  get_polr-missing name namespace s ready h =
      rw (C.get_missing (key P.group_version name namespace) s.store ready h) refl

  -- Reading a report changes nothing.
  pub get_polr-state :
      (name namespace : Text) (s : State P S)
      → C.Ready s.store
      → Still (get_polr P S name namespace) s
  get_polr-state name namespace s ready = record {
    same = elim (held-cases name namespace s) [
      | inl e ↦ rw (get_polr-missing name namespace s ready e) refl
      | inr (d, e) ↦ rw (get_polr-held name namespace d s ready e) refl
    ];
  }

  -- `Get` returns the report that its stored bytes decode to, and changes nothing.
  pub get-held :
      (namespace name d : Text) (r : ReportOf P) (s : State P S)
      → C.Ready s.store
      → held name namespace s ≡ some d
      → decode P d ≡ ok r
      → get P S namespace name s ≡ (ok r, s)
  unfolding get or_fail
  get-held namespace name d r s ready h e =
      rw (get_polr-held name namespace d s ready h) (rw e refl)

  -- `Get` of a report that is not stored is a NotFound of its name, and changes nothing.
  pub get-missing :
      (namespace name : Text) (s : State P S)
      → C.Ready s.store
      → held name namespace s ≡ none
      → get P S namespace name s ≡ (err (not_found (codes "policyreports") name), s)
  unfolding get or_fail
  get-missing namespace name s ready h = rw (get_polr-missing name namespace s ready h) refl

  -- What `Get` makes of the decoder's answer.
  abbrev answer : Text → Result (ReportOf P) → Result (ReportOf P)
  answer name (ok r) = ok r
  answer name (err e) = err (not_found (codes "policyreports") name)
  answer name panicked = panicked

  answer-ok :
      (name : Text) (x : Result (ReportOf P)) (r : ReportOf P) → answer name x ≡ ok r → x ≡ ok r
  answer-ok name (ok b) r h = h
  answer-ok name (err e) r h = cc
  answer-ok name panicked r h = cc

  get-answer :
      (namespace name d : Text) (s : State P S)
      → C.Ready s.store
      → held name namespace s ≡ some d
      → (get P S namespace name s).0 ≡ answer name (decode P d)
  unfolding get or_fail
  get-answer namespace name d s ready h =
      rw (get_polr-held name namespace d s ready h) (ground arith)

  -- A report that `Get` returns is stored.
  pub get-decoded :
      (namespace name : Text) (r : ReportOf P) (s : State P S)
      → C.Ready s.store
      → (get P S namespace name s).0 ≡ ok r
      → (d : Text) × (held name namespace s ≡ some d) × (decode P d ≡ ok r)
  get-decoded namespace name r s ready got = elim (held-cases name namespace s) [
    | inl e ↦ absurd (not_missing (rw (get-missing namespace name s ready e) at got))
    | inr (d, e) ↦
        (d, e, answer-ok name (decode P d) r (sym (get-answer namespace name d s ready e) ∙ got))
  ]
    where
      not_missing : err (not_found (codes "policyreports") name) ≡ ok r → ⊥
      not_missing e = cc
