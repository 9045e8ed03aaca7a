-- ===== src/Export/Stream.antt =====
-- The stream of a job's progress (backend/internal/export/sse.go).
use check.Common.{
  ℕ, String, Bool, not, ◌||◌, Option, none, some, List, [], ◌∷◌, ◌==◌, if◌then◌else◌, Result, ok,
  err,
}
use check.Export.Defs.{ExportErr, JobStatus, succeeded, failed, Job, is_terminal, same_job_status}

-- `progressEvent`
pub record ProgressEvent : Type 0 where
  pub progress : ℕ
  pub processed_rows : ℕ
  pub total_rows : Option ℕ
  pub status : JobStatus

-- `doneEvent`
pub record DoneEvent : Type 0 where
  pub status : JobStatus
  pub result_url : Option String
  pub error : Option String

pub data Event : Type 0 where
  progress : ProgressEvent → Event
  done : DoneEvent → Event
  heartbeat : Event

abbrev pub progress_of : Job → Event
progress_of j = progress record {
  progress = j.progress;
  processed_rows = j.processed_rows;
  total_rows = j.total_rows;
  status = j.status;
}

-- `signedResultURL`; `sign` is the object store's signer.
abbrev pub signed_result_url : (String → String → Option String) → Job → Option String
signed_result_url sign j = elim j.status [
  | succeeded ↦ elim j.result_bucket [
    | none ↦ none
    | some bucket ↦ elim j.result_cos_key [ none ↦ none | some key ↦ sign bucket key ]
  ]
  | _ ↦ none
]

abbrev pub done_of : (String → String → Option String) → Job → Event
done_of sign j =
    done record { status = j.status; result_url = signed_result_url sign j; error = j.error }

-- The job that cannot be read.
abbrev pub vanished : Event
vanished = done record { status = failed; result_url = none; error = some "job not found" }

-- `progressChanged`
abbrev pub progress_changed : Job → Job → Bool
progress_changed last cur =
    not (last.progress == cur.progress)
    || not (last.processed_rows == cur.processed_rows)
    || not (same_job_status last.status cur.status)

-- The ticks of the loop with what each of them reads, until the client disconnects.
unfoldable pub stream_ticks :
    (String → String → Option String) → Job → List (Result ExportErr Job) → List Event
stream_ticks sign last [] = []
stream_ticks sign last (err e ∷ reads) = vanished ∷ []
stream_ticks sign last (ok job ∷ reads) =
    let changed = stream_ticks sign job reads in
    let same = stream_ticks sign last reads in
    if progress_changed last job
    then progress_of job ∷ (if is_terminal job.status then done_of sign job ∷ [] else changed)
    else heartbeat ∷ (if is_terminal job.status then done_of sign job ∷ [] else same)

-- `streamJobEvents`, with `emitInitialAndMaybeDone` on the first read.
unfoldable pub stream_job_events :
    (String → String → Option String)
    → Result ExportErr Job
    → List (Result ExportErr Job)
    → List Event
stream_job_events sign (err e) reads = vanished ∷ []
stream_job_events sign (ok job) reads =
    progress_of job
    ∷ (if is_terminal job.status then done_of sign job ∷ [] else stream_ticks sign job reads)
