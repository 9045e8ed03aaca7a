-- ===== src/Tests/ExportTests.antt =====
-- The theorems on export jobs for one request.
use check.Common.{
  ℕ, ◌≡◌, ◌≢◌, refl, String, Bool, true, false, Option, none, some, [], ◌∷◌, ◌++◌, ◌⊎◌, ok, err,
  All, insert_row,
}
use check.Export.Defs.{
  ExportErr, out_of_fuel, pending, running, succeeded, absent, ExportParams, Job, Jobs,
}
use check.Export.Service.{has_id, create, get_by_uuid}
use check.Export.Builders.{ProblemLine, write_pages, build_list}
use check.Export.Worker.{Source, Outside, build, handle_run}
use check.Export.Stream.{progress_of, done_of, heartbeat, stream_ticks, stream_job_events}
use check.Export.Ends.{dones, closes, stream_job_events-done}
use check.Export.Pages.{build_list-ends, build_list-all}
use check.Export.Runs.{Sane, requests, runs, run, run-Sane}
use check.Export.Outcomes.{verdict, handle_run-verdict, create-cases}

abbrev quiet : ℕ → Bool
quiet _ = false

abbrev no_filter : ExportParams
no_filter = record {
  project_id = none;
  inspector_id = none;
  inspection_id = none;
  type_item = none;
  category = none;
  status = absent;
  since = none;
  until = none;
}

abbrev read : String → Option ExportParams
read params = some no_filter

abbrev no_jobs : Jobs
no_jobs = record { table = record { rows = []; next = 1 }; queue = [] }

abbrev line : ℕ → ℕ → ProblemLine
line id at = record {
  id = id;
  project = "road";
  inspector = "li";
  type_label = "";
  status_label = "";
  category_label = "";
  captured_at = at;
  description = "";
  note = "";
  project_id = 1;
  inspector_id = 7;
  inspection_id = none;
  type_item_id = none;
  status_item_id = none;
  category_item_id = none;
  deleted = false;
}

abbrev source : Source ℕ
source = record { problems = line 1 10 ∷ line 2 20 ∷ []; inspections = []; projects = λ p. [] }

abbrev smooth : Outside ℕ
smooth = record {
  refuses_problem = λ _. false;
  refuses_inspection = λ _. false;
  refuses_project = λ _. false;
  opens = quiet;
  fail_page = λ _ _. false;
  read_params = read;
  parse_time = λ _. none;
  serialize_fails = false;
  upload_fails = false;
}

abbrev asked : Jobs
asked = (create read quiet false "u-1" 5 "PROBLEM_LIST" "{}" 7 no_jobs).0

run-Sane_example :
    All Sane
      (run
        (requests read quiet false "u-1" 5 "PROBLEM_LIST" "{}" 7
          ∷ runs smooth source (λ _. true) quiet 6 "c5-exports" "u-1"
          ∷ [])
        no_jobs).table.rows
run-Sane_example =
    run-Sane
      (requests read quiet false "u-1" 5 "PROBLEM_LIST" "{}" 7
        ∷ runs smooth source (λ _. true) quiet 6 "c5-exports" "u-1"
        ∷ [])
      no_jobs tt

abbrev asked_job : Job
asked_job = record {
  id = 1;
  job_uuid = "u-1";
  kind = "PROBLEM_LIST";
  params = "{}";
  status = pending;
  progress = 0;
  total_rows = none;
  processed_rows = 0;
  result_cos_key = none;
  result_bucket = none;
  error = none;
  requested_by = some 7;
  started_at = none;
  finished_at = none;
  created_at = 5;
}

finds : get_by_uuid (λ _. true) false "u-1" asked ≡ ok asked_job
unfolding get_by_uuid create
finds = refl

succeeds : (handle_run smooth source (λ _. true) quiet 6 "c5-exports" "u-1" asked).1 ≡ ok tt
unfolding handle_run get_by_uuid create build build_list write_pages
succeeds = refl

handle_run-verdict_example :
    let after = handle_run smooth source (λ _. true) quiet 6 "c5-exports" "u-1" asked in
    All (λ j. has_id 1 j ≡ true → j.status ≡ verdict after.1) after.0.table.rows
handle_run-verdict_example =
    handle_run-verdict smooth source (λ _. true) quiet 6 "c5-exports" "u-1" asked asked_job finds
      refl refl

create-cases_example :
    let out = create read quiet true "u-1" 5 "PROBLEM_LIST" "{}" 7 no_jobs in
    ((e : ExportErr) × (out.1 ≡ err e) × (out.0.table.rows ≡ []) × (out.0.queue ≡ []))
    ⊎ ((job : Job) × (out.1 ≡ ok job)
        × (job.status ≡ pending)
        × (job.kind ≡ "PROBLEM_LIST")
        × (out.0.table.rows ≡ insert_row job [])
        × (out.0.queue ≡ [] ++ job.job_uuid ∷ []))
create-cases_example = create-cases read quiet true "u-1" 5 "PROBLEM_LIST" "{}" 7 no_jobs refl tt

build_list-ends_example :
    (build_list (λ (n : ℕ). false) quiet (λ _ _. false) 1 (4 ∷ 5 ∷ []) no_jobs).1 ≢ err out_of_fuel
build_list-ends_example =
    build_list-ends (λ (n : ℕ). false) 1 (4 ∷ 5 ∷ []) no_jobs quiet (λ _ _. false)

build_list-all_example :
    (build_list (λ (n : ℕ). false) (λ _. false) (λ _ _. false) 1 (4 ∷ 5 ∷ []) no_jobs).1
    ≡ ok (2, 4 ∷ 5 ∷ [])
build_list-all_example = build_list-all (λ (n : ℕ). false) 1 (4 ∷ 5 ∷ []) no_jobs refl

abbrev sign : String → String → Option String
sign bucket key = some "url"

abbrev half : Job
half = record asked_job { status = running; progress = 50; processed_rows = 1 }

abbrev full : Job
full = record asked_job { status = succeeded; progress = 100; processed_rows = 2 }

streams :
    stream_job_events sign (ok half) (ok half ∷ ok full ∷ ok full ∷ [])
    ≡ progress_of half ∷ heartbeat ∷ progress_of full ∷ done_of sign full ∷ []
unfolding stream_job_events stream_ticks
streams = refl

stream_job_events-done_example :
    let events = stream_job_events sign (ok half) (ok half ∷ ok full ∷ ok full ∷ []) in
    (dones events ≡ 1) × (closes events ≡ true)
stream_job_events-done_example =
    stream_job_events-done sign (ok half) (ok half ∷ ok full ∷ ok full ∷ [])
