-- ===== src/Tests/Threads.antt =====
-- The theorems on threads, at concrete inputs.
use policy_server.Prelude.{true, ℕ, ◌≡◌, refl, inl, false, Option, none, some, [], ◌∷◌, ◌+◌, ◌≤◌}
use policy_server.Prelude.Texts.{Text, codes, text_eq, contains}
use policy_server.Result.{Error, pure, or_fail, ◌>>=◌}
use policy_server.Strconv.{pos, sprint, parse_int, parse_uint, next_int64}
use policy_server.Storage.GoMap.{lookup, insert}
use policy_server.Storage.InMemory
use policy_server.Storage.InMemory.{find}
use policy_server.Report.{report}
use policy_server.Handler.{
  is_dry_run, State, ReportOf, ObjectOf, UpdatedObjectInfo, check_validation, as_report, added,
  action,
}
use policy_server.Polr.{delete, key, create, update, default_namespace, create_polr}
use policy_server.Polr.Reads.{held}
use policy_server.Polr.Threads.{
  DeleteRequest, delete_asked, force_asked, CreateRequest, UpdateRequest, Thread, create_asked,
  update_asked, create_step, tell_step, advance, System, pick, Schedule, begin, next,
}
use policy_server.Polr.Threads.Alone.{run_alone, Answers, threads_alone}
use policy_server.Polr.Threads.Counts.{winners, losers, is_delete, total}
use policy_server.Polr.Threads.Vacancy.{vacancy}
use policy_server.Polr.Threads.Balance.{the_key, deletes, threads_balance}
use policy_server.Polr.Threads.Winner.{create_race_won}
use policy_server.Polr.Threads.Lost.{Rewrites, rewritten}
use policy_server.Polr.Threads.Overtaken.{EndsWith, update_race}
use policy_server.Tests.{sample, to_json}
use policy_server.Tests.Progress.{sample-Encodes}
use policy_server.Tests.Setup.{
  memory, law, fresh, fresh-IsOpen, stocked, stocked-IsOpen, there, decoded, real, valid, first,
  first_stored,
}

abbrev asks : CreateRequest sample memory
asks = record {
  validate_new = valid;
  create_namespace = codes "ns";
  new_object = report first;
  create_options = real;
}

abbrev change : ℕ → UpdatedObjectInfo sample memory
change n none = (none, none)
change n (some old) = (some (report (record old { body = n })), none)

abbrev agree : Option (ObjectOf sample) → ReportOf sample → Option Error
agree obj old = none

-- A request that sets the body.
abbrev sets : ℕ → UpdateRequest sample memory
sets n = record {
  info = change n;
  validate_change = agree;
  update_namespace = codes "ns";
  update_name = codes "a";
  update_options = real;
}

abbrev agrees : ReportOf sample → Option Error
agrees r = none

-- A request that removes the report.
abbrev removal : DeleteRequest sample memory
removal = record {
  validate_removal = agrees;
  delete_namespace = codes "ns";
  delete_name = codes "a";
  delete_options = real;
}

threads_alone_example :
    Answers sample memory
      (run_alone sample memory 2 (create_asked asks) stocked)
      (create sample memory valid (codes "ns") (report first) real stocked)
    × Answers sample memory
        (run_alone sample memory 4 (update_asked (sets 7)) stocked)
        (update sample memory (change 7) agree (codes "ns") (codes "a") false real stocked)
    × Answers sample memory
        (run_alone sample memory 3 (force_asked (sets 7)) stocked)
        (update sample memory (change 7) agree (codes "ns") (codes "a") true real stocked)
    × Answers sample memory
        (run_alone sample memory 3 (delete_asked removal) stocked)
        (delete sample memory agrees (codes "ns") real (codes "a") stocked)
threads_alone_example = threads_alone sample memory asks (sets 7) removal stocked

-- Two threads that create the report, and a schedule that runs the first to its end and then the second.
abbrev begun : System sample memory
begun = record { shared = fresh; threads = create_asked asks ∷ create_asked asks ∷ [] }

abbrev one : System sample memory
one = record {
  shared = (advance sample memory (create_asked asks) fresh).1;
  threads = (advance sample memory (create_asked asks) fresh).0 ∷ create_asked asks ∷ [];
}

first_moves : Schedule sample memory begun 1 one
first_moves = next begin (pick [] (create_asked asks) (create_asked asks ∷ []) refl tt refl refl)

-- A thread that removes the report, and one that creates it again.
abbrev busy : System sample memory
busy = record { shared = stocked; threads = delete_asked removal ∷ create_asked asks ∷ [] }

abbrev seen : System sample memory
seen = record {
  shared = (advance sample memory (delete_asked removal) stocked).1;
  threads = (advance sample memory (delete_asked removal) stocked).0 ∷ create_asked asks ∷ [];
}

removal_moves : Schedule sample memory busy 1 seen
removal_moves =
    next begin (pick [] (delete_asked removal) (create_asked asks ∷ []) refl tt refl refl)

threads_balance_example :
    (winners sample memory (the_key sample memory law (codes "a") (codes "ns")) seen.threads
        + vacancy sample memory law (the_key sample memory law (codes "a") (codes "ns")) seen.shared
      ≡ losers sample memory (the_key sample memory law (codes "a") (codes "ns")) seen.threads
        + vacancy sample memory law (the_key sample memory law (codes "a") (codes "ns")) stocked)
    × (losers sample memory (the_key sample memory law (codes "a") (codes "ns")) seen.threads
        ≤ deletes sample memory busy.threads)
threads_balance_example =
    threads_balance sample memory law (codes "a") (codes "ns") busy seen stocked-IsOpen tt
      removal_moves

-- Then the first thread tells the watchers, and the second finds the key taken.
abbrev ran : Thread sample memory × State sample memory
ran = advance sample memory (create_asked asks) fresh

abbrev told : Thread sample memory × State sample memory
told = advance sample memory ran.0 ran.1

abbrev refused : Thread sample memory × State sample memory
refused = advance sample memory (create_asked asks) told.1

abbrev said : System sample memory
said = record { shared = told.1; threads = told.0 ∷ create_asked asks ∷ [] }

abbrev over : System sample memory
over = record { shared = refused.1; threads = told.0 ∷ refused.0 ∷ [] }

to_the_end : Schedule sample memory begun 3 over
unfolding advance create_step create_polr check_validation default_namespace is_dry_run contains
    text_eq InMemory.create find lookup key sprint ◌>>=◌ or_fail InMemory.assign as_report insert
    pure
to_the_end =
    next {t = said} (next first_moves (pick [] ran.0 (create_asked asks ∷ []) refl tt refl refl))
      (pick (told.0 ∷ []) (create_asked asks) [] refl tt refl refl)

create_race_won_example :
    (winners sample memory (the_key sample memory law (codes "a") (codes "ns")) over.threads ≡ 1)
    × ((d : Text) × (held sample memory law (codes "a") (codes "ns") over.shared ≡ some d))
unfolding advance create_step tell_step create_polr check_validation default_namespace is_dry_run
    contains text_eq InMemory.create find lookup key sprint ◌>>=◌ or_fail InMemory.assign as_report
    insert pure total is_delete
create_race_won_example =
    create_race_won sample memory law (codes "a") (codes "ns") begun over sample-Encodes
      fresh-IsOpen tt refl refl
      (inl
        (record { aim = first; is_report = refl; accepted = inl refl; wet = refl; at_key = refl }))
      to_the_end (λ run. run, (λ run. run, tt))

sets-Rewrites :
    (b : ℕ) → Rewrites sample memory law (codes "a") (codes "ns") first_stored (pos 1) (sets b)
unfolding default_namespace is_dry_run contains sprint next_int64
sets-Rewrites b = record {
  fresh_report = record first_stored { body = b };
  fresh_bytes = to_json (record first_stored { resource_version = codes "2"; body = b });
  same_target = (refl, refl);
  changes = refl;
  accepted = inl refl;
  wet = refl;
  same_name = refl;
  same_namespace = refl;
  encodes = refl;
}

-- What the request that sets the body would store.
abbrev new_report : ℕ → ReportOf sample
new_report b =
    rewritten sample memory law (codes "a") (codes "ns") first_stored (pos 1) (sets-Rewrites b)

update_race_example :
    ((new_report 7).resource_version ≡ (new_report 8).resource_version)
    × EndsWith sample memory law
        (codes "a")
        (codes "ns")
        first_stored
        (pos 1)
        (sets 7)
        (sets 8)
        (sets-Rewrites 7)
        (sets-Rewrites 8)
        stocked
        (action added (report (new_report 7)) ∷ action added (report (new_report 8)) ∷ [])
    × EndsWith sample memory law
        (codes "a")
        (codes "ns")
        first_stored
        (pos 1)
        (sets 7)
        (sets 8)
        (sets-Rewrites 7)
        (sets-Rewrites 8)
        stocked
        (action added (report (new_report 8)) ∷ action added (report (new_report 7)) ∷ [])
unfolding parse_int parse_uint
update_race_example =
    update_race sample memory law (codes "a") (codes "ns") first_stored (pos 1) (sets 7) (sets 8)
      (sets-Rewrites 7) (sets-Rewrites 8) stocked (to_json first_stored) stocked-IsOpen there
      decoded refl
