-- ===== src/Export/Defs.antt =====
-- The rows of the export jobs, what a client asks for and sees (backend/internal/export/model.go,
-- mapping.go). Instants and ids are numbers, a job's UUID is a text. JSON decoding and the parsing of
-- instants are parameters.
use check.Common.{
  ℕ, ℤ, pos, negsuc, ◌*◌, ◌/◌, String, Bool, true, false, Option, none, some, List, ◌==◌, ltb,
  str_eq, if◌then◌else◌, Table,
}

pub data ExportErr : Type 0 where
  not_found invalid_type invalid_status : ExportErr
  fault out_of_fuel : ExportErr

pub data JobStatus : Type 0 where
  pending running succeeded failed cancelled : JobStatus

-- The JSON value of the filter `status`.
pub data StatusValue : Type 0 where
  absent other : StatusValue
  number : ℕ → StatusValue
  text : String → StatusValue

-- `exportParams`
pub record ExportParams : Type 0 where
  pub project_id : Option ℕ
  pub inspector_id : Option ℕ
  pub inspection_id : Option ℕ
  pub type_item : Option ℕ
  pub category : Option ℕ
  pub status : StatusValue
  pub since : Option String
  pub until : Option String

abbrev pub status_as_id : StatusValue → Option ℕ
status_as_id (number n) = some n
status_as_id _ = none

abbrev pub status_as_string : StatusValue → Option String
status_as_string (text s) = if str_eq s "" then none else some s
status_as_string _ = none

-- `timeBound`: what does not parse is no bound.
abbrev pub time_bound : (String → Option ℕ) → Option String → Option ℕ
time_bound parse none = none
time_bound parse (some s) = if str_eq s "" then none else parse s

-- A row of `export_jobs`.
pub record Job : Type 0 where
  pub id : ℕ
  pub job_uuid : String
  pub kind : String
  pub params : String
  pub status : JobStatus
  pub progress : ℕ
  pub total_rows : Option ℕ
  pub processed_rows : ℕ
  pub result_cos_key : Option String
  pub result_bucket : Option String
  pub error : Option String
  pub requested_by : Option ℕ
  pub started_at : Option ℕ
  pub finished_at : Option ℕ
  pub created_at : ℕ

-- The jobs and the UUIDs of the queued tasks.
pub record Jobs : Type 0 where
  pub table : Table Job
  pub queue : List String

-- `isTerminal`
abbrev pub is_terminal : JobStatus → Bool
is_terminal succeeded = true
is_terminal failed = true
is_terminal cancelled = true
is_terminal _ = false

abbrev pub same_job_status : JobStatus → JobStatus → Bool
same_job_status pending pending = true
same_job_status running running = true
same_job_status succeeded succeeded = true
same_job_status failed failed = true
same_job_status cancelled cancelled = true
same_job_status _ _ = false

-- `clampProgress`
abbrev pub clamp_progress : ℤ → ℕ
clamp_progress (negsuc n) = 0
clamp_progress (pos n) = if ltb 100 n then 100 else n

-- `percent`
abbrev pub percent : ℕ → ℕ → ℕ
percent processed total = if total == 0 then 100 else clamp_progress (pos (processed * 100 / total))
