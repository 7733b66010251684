-- ===== src/Polr/Service/Agrees.antt =====
-- What a storage holds agrees with the reports of the specification, and keeps agreeing after a write.
use policy_server.Prelude.{
  ◌≡◌, refl, sym, ◌∙◌, inl, inr, Bool, true, false, Bool-cases, ◌&&◌, Option, none, some, arith,
  if◌then◌else◌,
}
use policy_server.Prelude.Texts.{Text, text_eq, text_eq_iff, NoSlash}
use policy_server.Result.{ok}
use policy_server.Strconv.{pos, sprint, next_int64, parse_int}
use policy_server.Strconv.RoundTrip.{parse_int-sprint, parse_int-IsInt64, next_int64-IsInt64}
use policy_server.Storage.{Storage}
use policy_server.Storage.Contract.{Contract}
use policy_server.Storage.GoMap.{lookup}
use policy_server.Report.{Platform}
use policy_server.Handler.{ReportOf, State, decode}
use policy_server.Polr.{key, default_namespace}
use policy_server.Polr.Keys.{key_injective}
use policy_server.Polr.Reads.{held}
use policy_server.Polr.Filing.{HasVersion}
use policy_server.Polr.Service.{Reports, with_report}

module _ (P : Platform) (S : Storage) (C : Contract S) where
  -- What is stored under a namespace and a name, and what the specification has there.
  abbrev pub Agrees : Text → Text → Option Text → Option (ReportOf P) → Type 0
  Agrees namespace name none none = Unit
  Agrees namespace name (some d) (some r) =
      (decode P d ≡ ok r)
      × (r.name ≡ name)
      × (r.namespace ≡ namespace)
      × HasVersion r.resource_version
  Agrees namespace name _ _ = ⊥

  pub record Simulates (s : State P S) (m : Reports P) : Type 0 where
    pub ready : C.Ready s.store
    pub same_world : s.world ≡ m.outside
    pub agrees :
        (namespace name : Text)
        → NoSlash namespace
        → Agrees namespace name (held P S C name namespace s) (m.reports namespace name)

  both_true : (b c : Bool) → (b && c) ≡ true → (b ≡ true) × (c ≡ true)
  both_true true c e = (refl, e)
  both_true false c e = absurd (cc)

  same_parts :
      (namespace name namespace' name' : Text)
      → (text_eq namespace namespace' && text_eq name name') ≡ true
      → (namespace ≡ namespace') × (name ≡ name')
  same_parts namespace name namespace' name' e =
      let (p, q) = both_true (text_eq namespace namespace') (text_eq name name') e in
      ((text_eq_iff namespace namespace').0 p, (text_eq_iff name name').0 q)

  text_eq-key :
      (namespace name namespace' name' : Text)
      → NoSlash namespace
      → NoSlash namespace'
      → text_eq (key P.group_version name namespace) (key P.group_version name' namespace')
        ≡ (text_eq namespace namespace' && text_eq name name')
  text_eq-key namespace name namespace' name' h h' =
      elim (Bool-cases
        (text_eq (key P.group_version name namespace) (key P.group_version name' namespace'))) [
          | inl same ↦
              let (p, q) =
                key_injective P.group_version name name' namespace namespace' h h'
                  ((text_eq_iff _ _).0 same) in
              let e = (text_eq_iff namespace namespace').1 p in
              let f = (text_eq_iff name name').1 q in same ∙ rw (e, f) refl
          | inr other ↦ elim (Bool-cases (text_eq namespace namespace' && text_eq name name')) [
            | inl parts ↦
                let (p, q) = same_parts namespace name namespace' name' parts in
                let e =
                  (text_eq_iff (key P.group_version name namespace)
                      (key P.group_version name' namespace')).1
                    (rw (p, q) refl) in
                absurd (cc)
            | inr apart ↦ other ∙ sym apart
          ]
        ]

  -- After a write at a plain key, the two sides agree again.
  pub written :
      (namespace name : Text) (x : Option Text) (y : Option (ReportOf P)) (s : State P S)
      (t : S.State) (m : Reports P)
      → NoSlash namespace
      → Simulates s m
      → Agrees namespace name x y
      → ((j : Text)
          → lookup j (C.entries t) ≡ (
              if text_eq (key P.group_version name namespace) j
              then x
              else lookup j (C.entries s.store)))
      → (namespace' name' : Text) → NoSlash namespace'
      → Agrees namespace' name'
          (lookup (key P.group_version name' namespace') (C.entries t))
          (with_report P namespace name y m.reports namespace' name')
  written namespace name x y s t m plain sim good entries namespace' name' plain' =
      rw
        (
          entries (key P.group_version name' namespace'),
          text_eq-key namespace name namespace' name' plain plain',
        )
        (go (text_eq namespace namespace' && text_eq name name') refl)
    where
      go :
          (b : Bool)
          → (text_eq namespace namespace' && text_eq name name') ≡ b
          → Agrees namespace' name'
              (if b then x else held P S C name' namespace' s)
              (if b then y else m.reports namespace' name')
      go true e = let (p, q) = same_parts namespace name namespace' name' e in rw (← p, ← q) good
      go false e = sim.agrees namespace' name' plain'

  pub default-kept :
      (namespace : Text) (r : ReportOf P)
      → r.namespace ≡ namespace
      → ((default_namespace P S namespace r).name ≡ r.name)
        × ((default_namespace P S namespace r).namespace ≡ namespace)
  unfolding default_namespace
  default-kept namespace r e = ground (arith, e)

  -- The version that a stored report is given reads back.
  pub version_one : HasVersion (sprint (pos 1))
  version_one = (pos 1, parse_int-sprint (pos 1) (omega arith))

  pub next_version_reads : (old : Text) → HasVersion (sprint (next_int64 (parse_int old).0))
  next_version_reads old =
      let n = next_int64 (parse_int old).0 in
      (n, parse_int-sprint n (next_int64-IsInt64 (parse_int old).0 (parse_int-IsInt64 old)))
