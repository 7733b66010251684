-- ===== src/Tests/Filing.antt =====
-- The theorems on storage keys and on sequences of requests, at concrete inputs.
use policy_server.Prelude.{
  ℕ, suc, ◌≡◌, refl, ap, inl, inr, Bool, true, Bool-cases, not, ◌&&◌, ◌==◌, [], ◌∷◌, ◌++◌, arith,
}
use policy_server.Polr.Frame.{versions_apart}
use policy_server.Prelude.Texts.{Text, codes, text_eq, contains, NoSlash}
use policy_server.Result.{◌>>=◌, or_fail}
use policy_server.Strconv.{sprint}
use policy_server.Storage.GoMap.{lookup, insert}
use policy_server.Storage.InMemory
use policy_server.Storage.InMemory.{find}
use policy_server.Report.{report}
use policy_server.Handler.{as_report, is_dry_run, decode, check_validation}
use policy_server.Polr.{key, create, get, get_polr, create_stored, create_polr, default_namespace}
use policy_server.Polr.Keys.{key_determines, IsGroupVersion}
use policy_server.Polr.Filing.{IsFiled}
use policy_server.Polr.Serve.{start, created, get_returns-Named, Named}
use policy_server.Tests.{sample, sample-KeepsNames}
use policy_server.Tests.Setup.{memory, law, fresh, fresh-IsOpen, real, valid, first, first_stored}

ns_plain : NoSlash (codes "ns")
ns_plain = (λ e. omega (arith, e), (λ e. omega (arith, e), tt))

abbrev group_version : Text
group_version = codes "g/v"

group_version-IsGroupVersion : IsGroupVersion group_version
group_version-IsGroupVersion = record {
  group = codes "g";
  version = codes "v";
  group_plain = (λ e. omega (arith, e), tt);
  version_plain = (λ e. omega (arith, e), tt);
  spelled = refl;
}

key_determines_example :
    (group_version ≡ group_version) × (codes "ns" ≡ codes "ns") × (codes "a" ≡ codes "a")
key_determines_example =
    key_determines group_version group_version (codes "a") (codes "a") (codes "ns") (codes "ns")
      group_version-IsGroupVersion group_version-IsGroupVersion ns_plain ns_plain refl

fresh-IsFiled : IsFiled sample memory law (Named sample) fresh
unfolding lookup
fresh-IsFiled = record {
  ready = fresh-IsOpen;
  filed = λ name namespace d plain h r dec. absurd (cc);
}

get_returns-Named_example : (first_stored.name ≡ codes "a") × (first_stored.namespace ≡ codes "ns")
unfolding create check_validation default_namespace is_dry_run contains text_eq create_stored
    create_polr get get_polr InMemory.create InMemory.get find lookup key decode sprint ◌>>=◌
    or_fail InMemory.assign as_report insert
get_returns-Named_example =
    get_returns-Named sample memory law sample-KeepsNames (codes "ns") (codes "a") first_stored
      fresh (create sample memory valid (codes "ns") (report first) real fresh).1 fresh-IsFiled
      (created valid (codes "ns") (report first) real (tt, ns_plain) start) ns_plain refl

-- `NoSlash` by evaluation.
abbrev is_plain : Text → Bool
is_plain [] = true
is_plain (b ∷ t) = not (b == 47) && is_plain t

plain-NoSlash : (t : Text) → is_plain t ≡ true → NoSlash t
plain-NoSlash [] h = tt
plain-NoSlash (b ∷ t) h = elim (Bool-cases (b == 47)) [
  | inl slash ↦ absurd (cc)
  | inr other ↦ (λ e. ground arith, plain-NoSlash t (rw other at h))
]

version-IsGroupVersion :
    (version : Text) → is_plain version ≡ true → IsGroupVersion (codes "wgpolicyk8s.io/" ++ version)
version-IsGroupVersion version h = record {
  group = codes "wgpolicyk8s.io";
  version = version;
  group_plain = plain-NoSlash (codes "wgpolicyk8s.io") refl;
  version_plain = plain-NoSlash version h;
  spelled = refl;
}

abbrev beta : Text
beta = codes "wgpolicyk8s.io/v1beta1"

abbrev count_bytes : Text → ℕ
count_bytes [] = 0
count_bytes (b ∷ t) = suc (count_bytes t)

versions_apart_example :
    lookup
      (key beta (codes "a") (codes "ns"))
      (law.entries (create sample memory valid (codes "ns") (report first) real fresh).1.store)
    ≡ lookup (key beta (codes "a") (codes "ns")) (law.entries fresh.store)
unfolding default_namespace
versions_apart_example =
    versions_apart sample memory law beta (codes "a") (codes "ns") fresh
      (create sample memory valid (codes "ns") (report first) real fresh).1
      (version-IsGroupVersion (codes "v1alpha2") refl)
      (version-IsGroupVersion (codes "v1beta1") refl) (λ e. omega (arith, ap count_bytes e))
      fresh-IsOpen (created valid (codes "ns") (report first) real (tt, ns_plain) start)
