-- ===== src/Tests/Cluster.antt =====
-- The theorems on cluster-wide policy reports, at concrete inputs over the in-memory database.
use policy_server.Prelude.{◌+◌, ◌≡◌, refl, inl, false, Option, none, some, [], ◌∷◌, arith}
use policy_server.Prelude.Texts.{Text, codes, text_eq, contains, NoSlash}
use policy_server.Result.{Error, ok, err, not_found}
use policy_server.Strconv.{pos, sprint, parse_int, parse_uint}
use policy_server.Storage.{Value}
use policy_server.Storage.GoMap.{lookup}
use policy_server.Storage.InMemory.Laws.{IsOpen}
use policy_server.Report.{report, unstructured}
use policy_server.Handler.{
  is_dry_run, added, deleted, action, State, ReportOf, ObjectOf, Untouched, UpdatedObjectInfo,
  decode,
}
use policy_server.Cpolr.{key, create, update, delete, get, cannot_create}
use policy_server.Cpolr.Reads.{held}
use policy_server.Cpolr.Writes.{
  create_new_refused, create_taken_overwrites, update_resets_version, cluster_delete_then_get,
}
use policy_server.Polr
use policy_server.Polr.Frame.{cluster_reports_kept}
use policy_server.Polr.Serve.{start, created}
use policy_server.Tests.{sample, to_json}
use policy_server.Tests.Setup.{memory, law, fresh, fresh-IsOpen, real, valid, first}

abbrev stored_report : ReportOf sample
stored_report = record first { uid = 1 ∷ []; resource_version = codes "4"; creation_timestamp = 2 }

abbrev cluster_value : Value
cluster_value = record {
  key = codes "/apis/wgpolicyk8s.io/v1alpha2/clusterpolicyreports/a";
  value_data = to_json stored_report;
  modified = 7;
}

-- The cluster report `a` is stored.
abbrev cluster : State sample memory
cluster = record {
  store = record {
    db = some ((codes "/apis/wgpolicyk8s.io/v1alpha2/clusterpolicyreports/a", cluster_value) ∷ []);
    clock = λ n. 7 + n;
    reads = 1;
    entropy = 0;
  };
  calls = [];
  world = 9;
}

cluster-IsOpen : IsOpen cluster.store
unfolding lookup
cluster-IsOpen = record {
  table = (codes "/apis/wgpolicyk8s.io/v1alpha2/clusterpolicyreports/a", cluster_value) ∷ [];
  opened = refl;
  unique = (refl, tt);
}

holds : held sample memory law (codes "a") cluster ≡ some (to_json stored_report)
unfolding lookup key text_eq
holds = refl

reads : decode sample (to_json stored_report) ≡ ok stored_report
unfolding decode
reads = refl

create_new_refused_example :
    ((create sample memory valid (report first) real fresh).0
      ≡ err (cannot_create sample memory (law.missing (key sample.group_version (codes "a")))))
    × Untouched sample memory fresh (create sample memory valid (report first) real fresh).1
unfolding is_dry_run contains text_eq lookup sprint
create_new_refused_example =
    create_new_refused sample memory law valid real first
      (to_json
        (record first { uid = 5 ∷ []; resource_version = codes "1"; creation_timestamp = 6 }))
      fresh fresh-IsOpen (inl refl) refl refl refl

abbrev restarted : ReportOf sample
restarted = record first { uid = 9 ∷ []; resource_version = codes "1"; creation_timestamp = 10 }

restarted_reads : decode sample (to_json restarted) ≡ ok restarted
unfolding decode
restarted_reads = refl

create_taken_overwrites_example :
    let t = (create sample memory valid (report first) real cluster).1 in
    ((create sample memory valid (report first) real cluster).0 ≡ ok (report restarted))
    × (t.calls ≡ action added (report restarted) ∷ [])
    × (get sample memory (codes "a") t ≡ (ok restarted, t))
unfolding is_dry_run contains text_eq sprint
create_taken_overwrites_example =
    create_taken_overwrites sample memory law valid real first (to_json restarted)
      (to_json stored_report) restarted cluster cluster-IsOpen (inl refl) refl holds refl
      restarted_reads

-- The update keeps the report.
abbrev keep : UpdatedObjectInfo sample memory
keep none = (none, none)
keep (some old) = (some (report old), none)

abbrev no_complaint : Option (ObjectOf sample) → ReportOf sample → Option Error
no_complaint obj old = none

update_resets_version_example :
    let t = (update sample memory keep no_complaint (codes "a") false real cluster).1 in
    ((update sample memory keep no_complaint (codes "a") false real cluster).0
      ≡ ok (report restarted))
    × (t.calls ≡ action added (report restarted) ∷ [])
    × (get sample memory (codes "a") t ≡ (ok restarted, t))
    × ((j : Text)
        → text_eq (key sample.group_version (codes "a")) j ≡ false
        → lookup j (law.entries t.store) ≡ lookup j (law.entries cluster.store))
unfolding is_dry_run contains text_eq sprint
update_resets_version_example =
    update_resets_version sample memory law keep no_complaint (codes "a") real
      (to_json stored_report) (to_json stored_report) (to_json restarted) stored_report
      stored_report restarted cluster cluster-IsOpen holds reads refl (inl refl) refl holds refl
      restarted_reads

abbrev valid_removal : ReportOf sample → Option Error
valid_removal r = none

cluster_delete_then_get_example :
    let t = (delete sample memory valid_removal real (codes "a") cluster).1 in
    ((delete sample memory valid_removal real (codes "a") cluster).0
      ≡ ok (unstructured (to_json stored_report)))
    × (t.calls ≡ action deleted (report stored_report) ∷ [])
    × (get sample memory (codes "a") t
        ≡ (err (not_found (codes "clusterpolicyreports") (codes "a")), t))
unfolding parse_int parse_uint is_dry_run contains text_eq
cluster_delete_then_get_example =
    cluster_delete_then_get sample memory law valid_removal (codes "a") real (to_json stored_report)
      (to_json stored_report) stored_report (to_json stored_report) (pos 4) cluster cluster-IsOpen
      holds reads refl refl refl refl refl refl

ns_plain : NoSlash (codes "ns")
ns_plain = (λ e. omega (arith, e), (λ e. omega (arith, e), tt))

cluster_reports_kept_example :
    held sample memory law
      (codes "a")
      (Polr.create sample memory valid (codes "ns") (report first) real cluster).1
    ≡ held sample memory law (codes "a") cluster
unfolding Polr.default_namespace
cluster_reports_kept_example =
    cluster_reports_kept sample memory law (codes "a") cluster
      (Polr.create sample memory valid (codes "ns") (report first) real cluster).1 cluster-IsOpen
      (created valid (codes "ns") (report first) real (tt, ns_plain) start)
