-- ===== src/Cpolr/Reads.antt =====
-- `getCpolr` and `Get` of pkg/api/cpolr.go over a storage that is a finite map.
use policy_server.Prelude.{◌≡◌, refl, ◌⊎◌, inl, inr, Option, none, some, arith}
use policy_server.Prelude.Texts.{Text, codes}
use policy_server.Result.Steps.{Still}
use policy_server.Result.{
  ◌>>=◌, or_fail, Result, ok, err, panicked, not_found, bad_request, wrapped,
}
use policy_server.Storage.{Storage}
use policy_server.Storage.Contract.{Contract}
use policy_server.Storage.GoMap.{lookup}
use policy_server.Report.{Platform}
use policy_server.Handler.{ReportOf, decode, State}
use policy_server.Cpolr.{key, get_cpolr, get}

module _ (P : Platform) (S : Storage) (C : Contract S) where
  -- The bytes stored under the key of a report.
  abbrev pub held : Text → State P S → Option Text
  held name s = lookup (key P.group_version name) (C.entries s.store)

  pub held-cases :
      (name : Text) (s : State P S) → (held name s ≡ none) ⊎ ((d : Text) × (held name s ≡ some d))
  held-cases name s = go (held name s) refl
    where
      go :
          (x : Option Text)
          → held name s ≡ x
          → (held name s ≡ none) ⊎ ((d : Text) × (held name s ≡ some d))
      go none e = inl e
      go (some d) e = inr (d, e)

  -- What `getPolr` makes of the decoder's answer.
  abbrev pub read_back : Result (ReportOf P) → Result (ReportOf P)
  read_back (ok r) = ok r
  read_back (err e) = err (bad_request (codes "invalid object found"))
  read_back panicked = panicked

  pub get_cpolr-held :
      (name d : Text) (s : State P S)
      → C.Ready s.store
      → held name s ≡ some d
      → get_cpolr P S name s ≡ (read_back (decode P d), s)
  unfolding get_cpolr ◌>>=◌
  get_cpolr-held name d s ready h =
      let (v, e, p) = C.get_found (key P.group_version name) d s.store ready h in
      rw e (rw p (ground arith))

  pub get_cpolr-missing :
      (name : Text) (s : State P S)
      → C.Ready s.store
      → held name s ≡ none
      → get_cpolr P S name s ≡ (
        err (
            wrapped
              (codes "could not find cluster policy report in store")
              (C.missing (key P.group_version name))),
        s,
      )
  unfolding get_cpolr ◌>>=◌
  get_cpolr-missing name s ready h =
      rw (C.get_missing (key P.group_version name) s.store ready h) refl

  -- Reading a report changes nothing.
  pub get_cpolr-state :
      (name : Text) (s : State P S) → C.Ready s.store → Still (get_cpolr P S name) s
  get_cpolr-state name s ready = record {
    same = elim (held-cases name s) [
      | inl e ↦ rw (get_cpolr-missing name s ready e) refl
      | inr (d, e) ↦ rw (get_cpolr-held name d s ready e) refl
    ];
  }

  -- `Get` returns the report that its stored bytes decode to, and changes nothing.
  pub get-held :
      (name d : Text) (r : ReportOf P) (s : State P S)
      → C.Ready s.store
      → held name s ≡ some d
      → decode P d ≡ ok r
      → get P S name s ≡ (ok r, s)
  unfolding get or_fail
  get-held name d r s ready h e = rw (get_cpolr-held name d s ready h) (rw e refl)

  -- `Get` of a report that is not stored is a NotFound of its name, and changes nothing.
  pub get-missing :
      (name : Text) (s : State P S)
      → C.Ready s.store
      → held name s ≡ none
      → get P S name s ≡ (err (not_found (codes "clusterpolicyreports") name), s)
  unfolding get or_fail
  get-missing name s ready h = rw (get_cpolr-missing name s ready h) refl
