-- ===== src/Tests/Program.antt =====
-- The theorems on the start of the program, its buckets, its settings and its tables, at concrete
-- inputs.
use policy_server.Prelude.{ℕ, ◌*◌, ◌^◌, ◌≡◌, refl, Option, none, some, List, [], ◌∷◌, map}
use policy_server.Prelude.Texts.{Text, codes}
use policy_server.Result.{Error, foreign}
use policy_server.Strconv.{ℤ, pos}
use policy_server.Utils.Float64.{
  Float64, literal, of_int64, add64, sub64, div64, mul64, less, nearest,
}
use policy_server.Utils.Buckets.{
  drop, first_above, is_close, with_timeout, timeout_seconds, buckets_for_scrape_duration,
}
use policy_server.Utils.Buckets.Kept.{Covers, buckets_cover}
use policy_server.Report.{ReportList, report_list}
use policy_server.Handler.{listing}
use policy_server.Table.{convert_to_table}
use policy_server.Table.Rows.{timed_rows, heading, headings_for, list_table}
use policy_server.Server.{
  Step, Host, validate_logging, new_options, is_too_short, set_up_storage, run_command,
}
use policy_server.Server.Performs.{until_failure, all_succeed, Ends}
use policy_server.Server.Startup.{startup_steps, run_command-startup_steps}
use policy_server.Tests.{sample}
use policy_server.Tests.Setup.{first, first_stored}

-- The default buckets in seconds.
abbrev first_default : Float64
first_default = literal 5 1000

abbrev other_defaults : List Float64
other_defaults =
    literal 1 100
    ∷ literal 25 1000
    ∷ literal 5 100
    ∷ literal 1 10
    ∷ literal 25 100
    ∷ literal 5 10
    ∷ literal 1 1
    ∷ literal 25 10
    ∷ literal 5 1
    ∷ literal 10 1
    ∷ []

-- 15 milliseconds are as far from 10 as 5 from 0, but `float64` finds them nearer; 4 seconds get a
-- bucket, and so do 15, with three around it.
buckets_tests :
    (buckets_for_scrape_duration first_default other_defaults (pos (15 * 10 ^ 6))
      ≡ first_default ∷ other_defaults)
    × (drop 8 (buckets_for_scrape_duration first_default other_defaults (pos (4 * 10 ^ 9)))
        ≡ literal 25 10 ∷ literal 4 1 ∷ literal 5 1 ∷ literal 10 1 ∷ [])
    × (drop 10 (buckets_for_scrape_duration first_default other_defaults (pos (15 * 10 ^ 9)))
        ≡ literal 10 1 ∷ literal 125 10 ∷ literal 15 1 ∷ literal 225 10 ∷ literal 30 1 ∷ [])
unfolding buckets_for_scrape_duration with_timeout timeout_seconds first_above is_close of_int64
    add64 sub64 div64 mul64 less nearest
buckets_tests = (refl, refl, refl)

buckets_cover_example :
    Covers first_default other_defaults
      (timeout_seconds (pos (4 * 10 ^ 9)))
      (buckets_for_scrape_duration first_default other_defaults (pos (4 * 10 ^ 9)))
buckets_cover_example = buckets_cover first_default other_defaults (pos (4 * 10 ^ 9))

abbrev two_reports : ReportList sample.Body
two_reports = listing sample (first ∷ first_stored ∷ [])

abbrev age_text : ℕ → ℕ → Text
age_text now created = now ∷ created ∷ []

list_table_example :
    let t = (convert_to_table sample age_text (report_list two_reports) 3).0 in
    (t.rows ≡ timed_rows sample age_text two_reports.items 3)
    × (map (λ row. row.object) t.rows ≡ two_reports.items)
    × (map heading t.column_definitions ≡ headings_for sample age_text two_reports.items)
    × (t.resource_version ≡ two_reports.list_resource_version)
    × (t.self_link ≡ two_reports.list_self_link)
    × (t.continue_token ≡ two_reports.continue_token)
list_table_example = list_table sample age_text two_reports 3

-- A host where nothing fails but the storage's set-up.
abbrev without_storage : Step → Option Error
without_storage (set_up_storage debug) = some (foreign (codes "no storage"))
without_storage step = none

abbrev host : Host
host = record {
  first_bucket = first_default;
  other_buckets = other_defaults;
  answer = without_storage;
  error_text = λ e. codes "error";
}

abbrev print_duration : ℤ → Text
print_duration z = codes "5s"

run_command-startup_steps_example :
    let steps = validate_logging ∷ startup_steps host new_options in
    ((run_command host print_duration new_options []).1 ≡ until_failure host steps)
    × Ends host (run_command host print_duration new_options []).0 (all_succeed host steps)
unfolding is_too_short
run_command-startup_steps_example =
    run_command-startup_steps host print_duration new_options refl refl
