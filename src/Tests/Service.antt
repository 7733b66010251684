-- ===== src/Tests/Service.antt =====
-- A sequence of requests against the reports that the handlers promise, at concrete inputs.
use policy_server.Prelude.{◌≡◌, refl, sym, ap, none, List, [], ◌∷◌, arith}
use policy_server.Prelude.Texts.{Text, codes, NoSlash, contains, text_eq}
use policy_server.Result.{Result, ok}
use policy_server.Storage.GoMap.{lookup}
use policy_server.Handler.{ReportOf, decode, is_dry_run}
use policy_server.Polr.{default_namespace}
use policy_server.Polr.Service.{
  Request, add, fetch, change, remove, Reports, answers, promised, ArePlain,
}
use policy_server.Polr.Service.Agrees.{Simulates}
use policy_server.Polr.Service.Handlers.{Settles, ConvertsBy}
use policy_server.Polr.Service.Simulates.{answers-promised}
use policy_server.Tests.{sample, sample-KeepsNames, to_json, split-length}
use policy_server.Tests.Setup.{memory, law, fresh, fresh-IsOpen, real, first}

abbrev or_same : ReportOf sample → Result (ReportOf sample) → ReportOf sample
or_same r (ok b) = b
or_same r _ = r

abbrev read_back : ReportOf sample → ReportOf sample
read_back r = or_same r (decode sample (to_json r))

decode-ok : (r : ReportOf sample) → decode sample (to_json r) ≡ ok (read_back r)
unfolding decode
decode-ok r = refl

version_kept : (r : ReportOf sample) → (read_back r).resource_version ≡ r.resource_version
unfolding decode
version_kept r = rw split-length (rw split-length (rw split-length (rw split-length refl)))

sample-Settles : Settles sample read_back
sample-Settles r =
    let (same_name, same_namespace) =
      sample-KeepsNames r (read_back r) (to_json r) refl (decode-ok r) in
    (to_json r, refl, decode-ok r, same_name, same_namespace, version_kept r)

sample-ConvertsBy : ConvertsBy sample to_json
sample-ConvertsBy r d e = ap ok (ap (λ (x : Result Text). elim x [ ok t ↦ t | _ ↦ [] ]) (sym e))

abbrev nothing : Reports sample
nothing = record { reports = λ namespace name. none; outside = 5 }

fresh-Simulates : Simulates sample memory law fresh nothing
unfolding lookup
fresh-Simulates = record {
  ready = fresh-IsOpen;
  same_world = refl;
  agrees = λ namespace name plain. tt;
}

abbrev requests : List (Request sample)
requests =
    add (codes "ns") first
    ∷ change (codes "ns") (codes "a") (λ r. record r { body = 3 })
    ∷ fetch (codes "ns") (codes "a")
    ∷ remove (codes "ns") (codes "a")
    ∷ fetch (codes "ns") (codes "a")
    ∷ []

ns_is_plain : NoSlash (codes "ns")
ns_is_plain = (λ e. omega (arith, e), (λ e. omega (arith, e), tt))

requests-ArePlain : ArePlain sample memory law read_back to_json requests
unfolding default_namespace
requests-ArePlain = (
  ns_is_plain,
  ((ns_is_plain, λ old. (refl, refl)), (ns_is_plain, (ns_is_plain, (ns_is_plain, tt)))),
)

answers-promised_example :
    answers sample memory law read_back to_json real requests fresh
    ≡ promised sample memory law read_back to_json real requests nothing
unfolding is_dry_run contains text_eq
answers-promised_example =
    answers-promised sample memory law read_back to_json real sample-Settles sample-ConvertsBy refl
      requests fresh nothing requests-ArePlain fresh-Simulates
