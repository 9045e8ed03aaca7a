-- ===== src/Export/Service.antt =====
-- The service of the export jobs (backend/internal/export/service.go). `fail i` says that the database
-- fails the i-th call of an operation.
use check.Common.{
  ℕ, pos, String, Bool, true, false, not, ◌||◌, Option, none, some, [], ◌∷◌, ◌++◌, ◌==◌, str_eq,
  if◌then◌else◌, find?, keep, add_row, Result, ok, err, guard, update_where,
}
use check.Export.Defs.{
  ExportErr, not_found, invalid_type, invalid_status, fault, pending, running, succeeded, failed,
  ExportParams, status_as_string, Job, Jobs, clamp_progress,
}

abbrev pub inspection_records : String
inspection_records = "INSPECTION_RECORDS"

abbrev pub problem_list : String
problem_list = "PROBLEM_LIST"

abbrev pub project_stats : String
project_stats = "PROJECT_STATS"

-- `validType`
abbrev pub valid_type : String → Bool
valid_type kind =
    str_eq kind inspection_records || str_eq kind problem_list || str_eq kind project_stats

-- `validInspectionStatus`
abbrev pub valid_inspection_status : String → Bool
valid_inspection_status s = str_eq s "IN_PROGRESS" || str_eq s "FINISHED" || str_eq s "ABANDONED"

abbrev pub valid_status_filter : Option ExportParams → Bool
valid_status_filter none = false
valid_status_filter (some p) = elim (status_as_string p.status) [
  | none ↦ true
  | some s ↦ valid_inspection_status s
]

-- `validateInspectionStatus`
abbrev pub validate_inspection_status :
    (String → Option ExportParams) → String → String → Result ExportErr (Unit {0})
validate_inspection_status read kind params =
    guard (not (str_eq kind inspection_records) || valid_status_filter (read params)) invalid_status

abbrev pub requester : ℕ → Option ℕ
requester user = if user == 0 then none else some user

abbrev pub new_job : String → String → String → ℕ → ℕ → ℕ → Job
new_job uuid kind params user now id = record {
  id = id;
  job_uuid = uuid;
  kind = kind;
  params = params;
  status = pending;
  progress = 0;
  total_rows = none;
  processed_rows = 0;
  result_cos_key = none;
  result_bucket = none;
  error = none;
  requested_by = requester user;
  started_at = none;
  finished_at = none;
  created_at = now;
}

abbrev pub drop_job : ℕ → Jobs → Jobs
drop_job id s = record s {
  table = record s.table { rows = keep (λ (j : Job). not (j.id == id)) s.table.rows };
}

-- The enqueueing of the task, and the deletion of the row where it fails.
abbrev pub enqueue_task : Bool → Bool → Job → Jobs → Jobs × Result ExportErr Job
enqueue_task enqueue_fails delete_fails job s =
    if enqueue_fails
    then (if delete_fails then s else drop_job job.id s, err fault)
    else (record s { queue = s.queue ++ job.job_uuid ∷ [] }, ok job)

abbrev pub insert_job : (ℕ → Bool) → Bool → (ℕ → Job) → Jobs → Jobs × Result ExportErr Job
insert_job fail enqueue_fails job s =
    if fail 0
    then (s, err fault)
    else enqueue_task enqueue_fails (fail 1) (job s.table.next)
        (record s { table = add_row job s.table })

-- `Create`; `fresh` is the UUID that the database generates. A foreign key that refuses the insert is one
-- of the failures.
unfoldable pub create :
    (String → Option ExportParams)
    → (ℕ → Bool)
    → Bool
    → String
    → ℕ
    → String
    → String
    → ℕ
    → Jobs
    → Jobs × Result ExportErr Job
create read fail enqueue_fails fresh now kind params user s =
    if not (valid_type kind)
    then (s, err invalid_type)
    else elim (validate_inspection_status read kind params) [
      | err e ↦ (s, err e)
      | ok valid ↦ insert_job fail enqueue_fails (new_job fresh kind params user now) s
    ]

-- `GetByUUID`; `is_uuid` is `uuid.Parse`.
unfoldable pub get_by_uuid : (String → Bool) → Bool → String → Jobs → Result ExportErr Job
get_by_uuid is_uuid fails uuid s =
    if not (is_uuid uuid)
    then err not_found
    else if fails
    then err fault
    else elim (find? (λ (j : Job). str_eq j.job_uuid uuid) s.table.rows) [
      | none ↦ err not_found
      | some j ↦ ok j
    ]

abbrev pub has_id : ℕ → Job → Bool
has_id id j = j.id == id

-- `UPDATE export_jobs SET … WHERE id = $1`
abbrev pub set_job : Bool → ℕ → (Job → Job) → Jobs → Jobs × Result ExportErr (Unit {0})
set_job fails id change s = if fails then (s, err fault) else (
  record s { table = record s.table { rows = update_where (has_id id) change s.table.rows } },
  ok tt,
)

abbrev pub started : ℕ → Option ℕ → Option ℕ
started now none = some now
started now (some at) = some at

abbrev pub mark_running : Bool → ℕ → ℕ → Jobs → Jobs × Result ExportErr (Unit {0})
mark_running fails now id =
    set_job fails id λ j. record j { status = running; started_at = started now j.started_at }

abbrev pub set_total_rows : Bool → ℕ → ℕ → Jobs → Jobs × Result ExportErr (Unit {0})
set_total_rows fails id total = set_job fails id λ j. record j { total_rows = some total }

abbrev pub update_progress : Bool → ℕ → ℕ → ℕ → Jobs → Jobs × Result ExportErr (Unit {0})
update_progress fails id processed progress =
    set_job fails id
      λ j. record j { processed_rows = processed; progress = clamp_progress (pos progress) }

abbrev pub succeed : ℕ → String → String → ℕ → Job → Job
succeed now bucket key processed j = record j {
  status = succeeded;
  progress = 100;
  processed_rows = processed;
  result_bucket = some bucket;
  result_cos_key = some key;
  finished_at = some now;
  error = none;
}

abbrev pub mark_succeeded :
    Bool → ℕ → ℕ → String → String → ℕ → Jobs → Jobs × Result ExportErr (Unit {0})
mark_succeeded fails now id bucket key processed =
    set_job fails id (succeed now bucket key processed)

abbrev pub mark_failed : Bool → ℕ → ℕ → String → Jobs → Jobs × Result ExportErr (Unit {0})
mark_failed fails now id message =
    set_job fails id λ j. record j { status = failed; error = some message; finished_at = some now }
