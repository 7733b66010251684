-- ===== src/Tests/Progress.antt =====
-- The theorems on serving stored reports, at concrete inputs.
use policy_server.Prelude.{◌≡◌, refl, arith, false, Option, none, some}
use policy_server.Prelude.Texts.{Text, codes, text_eq, contains, NoSlash}
use policy_server.Result.{Error, ok, err, panicked, not_found, ◌>>=◌, or_fail}
use policy_server.Strconv.{IsInt64, next_int64, ℤ, sprint, parse_int}
use policy_server.Storage.GoMap.{lookup, insert}
use policy_server.Storage.InMemory
use policy_server.Storage.InMemory.{find}
use policy_server.Report.{report, unstructured}
use policy_server.Handler.{
  is_dry_run, State, ReportOf, ObjectOf, UpdatedObjectInfo, decode, check_validation, as_report,
}
use policy_server.Polr.{
  get_polr, key, create, update, delete, get, default_namespace, create_stored, create_polr,
}
use policy_server.Polr.Reads.{held}
use policy_server.Polr.Update.{bumped}
use policy_server.Polr.Filing.{IsFiled}
use policy_server.Polr.Serve.{Reach, start, created, KeepsReports, Sound}
use policy_server.Polr.Progress.{
  Encodes, Converts, delete_progress, update_progress, version_bounds,
}
use policy_server.Tests.{sample, to_json, split-length}
use policy_server.Tests.Setup.{memory, law, fresh, fresh-IsOpen, real, valid, first, first_stored}

abbrev read_json : Text → ReportOf sample
unfolding decode
read_json d = elim (decode sample d) [ ok r ↦ r | err e ↦ first | panicked ↦ first ]

sample-KeepsReports : KeepsReports sample
unfolding decode read_json
sample-KeepsReports r d m =
    let json : d ≡ to_json r = cc in
    (
      read_json d,
      refl,
      rw json (rw split-length refl),
      rw json (rw split-length (rw split-length refl)),
      rw json (rw split-length (rw split-length (rw split-length (rw split-length refl)))),
    )

fresh-IsSound : IsFiled sample memory law (Sound sample) fresh
unfolding lookup
fresh-IsSound = record { ready = fresh-IsOpen; filed = λ name namespace d plain h. absurd (cc) }

ns_plain : NoSlash (codes "ns")
ns_plain = (λ e. omega (arith, e), (λ e. omega (arith, e), tt))

-- The state after one `Create`.
abbrev later : State sample memory
later = (create sample memory valid (codes "ns") (report first) real fresh).1

came : Reach sample memory fresh later
unfolding default_namespace
came = created valid (codes "ns") (report first) real (tt, ns_plain) start

there : held sample memory law (codes "a") (codes "ns") later ≡ some (to_json first_stored)
unfolding create check_validation default_namespace is_dry_run contains text_eq create_stored
    create_polr InMemory.create find lookup key sprint ◌>>=◌ or_fail InMemory.assign as_report
    insert
there = refl

pub sample-Encodes : Encodes sample
sample-Encodes r = (to_json r, refl)

sample-Converts : Converts sample
sample-Converts r d m = (d, refl)

abbrev lenient : ReportOf sample → Option Error
lenient r = none

delete_progress_example :
    (r : ReportOf sample) × (u : Text) × (get sample memory (codes "ns") (codes "a") later
      ≡ (ok r, later))
    × ((delete sample memory lenient (codes "ns") real (codes "a") later).0 ≡ ok (unstructured u))
    × ((get sample memory
          (codes "ns")
          (codes "a")
          (delete sample memory lenient (codes "ns") real (codes "a") later).1).0
        ≡ err (not_found (codes "policyreports") (codes "a")))
unfolding is_dry_run contains text_eq
delete_progress_example =
    delete_progress sample memory law sample-KeepsReports fresh-IsSound came (codes "ns")
      (codes "a") (to_json first_stored) ns_plain there lenient real sample-Encodes sample-Converts
      (λ r e. refl) refl

abbrev change : ReportOf sample → ReportOf sample
change old = record old { body = 7 }

abbrev change_info : UpdatedObjectInfo sample memory
change_info none = (none, none)
change_info (some old) = (some (report (change old)), none)

abbrev agree : Option (ObjectOf sample) → ReportOf sample → Option Error
agree obj old = none

update_progress_example :
    (old : ReportOf sample) × (n : ℤ) × (get sample memory (codes "ns") (codes "a") later
      ≡ (ok old, later))
    × (parse_int old.resource_version ≡ (n, none))
    × ((update sample memory change_info agree (codes "ns") (codes "a") false real later).0
        ≡ ok (
            report (
              bumped sample memory law
                (default_namespace sample memory (codes "ns") (change old))
                n)))
unfolding is_dry_run contains text_eq
update_progress_example =
    update_progress sample memory law sample-KeepsReports fresh-IsSound came (codes "ns")
      (codes "a") (to_json first_stored) ns_plain there change_info agree real change sample-Encodes
      (λ old. refl) (λ old. (refl, refl)) (λ obj old. refl) refl

version_bounds_example :
    (n : ℤ) × (parse_int first_stored.resource_version ≡ (n, none))
    × IsInt64 n
    × IsInt64 (next_int64 n)
    × (parse_int (sprint (next_int64 n)) ≡ (next_int64 n, none))
unfolding create check_validation default_namespace is_dry_run contains text_eq create_stored
    create_polr get get_polr InMemory.create InMemory.get find lookup key decode sprint ◌>>=◌
    or_fail InMemory.assign as_report insert
version_bounds_example =
    version_bounds sample memory law sample-KeepsReports fresh later (codes "ns") (codes "a")
      first_stored fresh-IsSound came ns_plain refl
