-- ===== src/Export/Runs.antt =====
-- What requests and runs of the worker leave, one after another (backend/internal/export/service.go,
-- worker.go).
use check.Common.{
  ℕ, ◌≤◌, ◌≡◌, refl, ℤ, pos, negsuc, String, Bool, true, false, Option, none, some, List, [], ◌∷◌,
  All, All-map, All-append, All-update_where, All-keep, keep, arith, Bool-cases, Result-cases, inl,
  inr, Result, ok, err,
}
use check.Export.Defs.{
  ExportErr, JobStatus, running, succeeded, failed, ExportParams, Job, Jobs, clamp_progress,
}
use check.Export.Service.{
  has_id, set_job, started, mark_running, succeed, get_by_uuid, new_job, create, valid_type,
  validate_inspection_status, insert_job,
}
use check.Export.Worker.{
  Source, Workbook, Outside, result_key, build, settle, run_marked, handle_run,
}
use check.Export.Keeps.{set_job-All, build-Kept}

-- What a job tells by its status: a success its files and no error, a failure its message.
abbrev pub Told : JobStatus → Job → Type 0
Told succeeded j =
    (j.progress ≡ 100)
    × ((key : String) × (j.result_cos_key ≡ some key))
    × ((bucket : String) × (j.result_bucket ≡ some bucket))
    × (j.error ≡ none)
    × ((at : ℕ) × (j.finished_at ≡ some at))
Told failed j =
    ((message : String) × (j.error ≡ some message)) × ((at : ℕ) × (j.finished_at ≡ some at))
Told _ j = Unit

-- The progress is a percentage, and the columns fit the status.
abbrev pub Sane : Job → Type 0
Sane j = (j.progress ≤ 100) × Told j.status j

clamp_progress-le : (p : ℤ) → clamp_progress p ≤ 100
clamp_progress-le (pos n) = ground arith
clamp_progress-le (negsuc n) = omega arith

-- While a job is built it is running.
abbrev Running : ℕ → Job → Type 0
Running id j = Sane j × (has_id id j ≡ true → j.status ≡ running)

Told-running : (j : Job) → j.status ≡ running → Told j.status j
Told-running j h = rw h tt

module _ {T : Type 0} (out : Outside T) (source : Source T) where
  build-Sane :
      (job : Job) (s : Jobs)
      → All (Running job.id) s.table.rows
      → All (Running job.id) (build out source job s).0.table.rows
  build-Sane job s =
      build-Kept (Running job.id) job.id
        (λ total j r h. ((r.0.0, Told-running (record j { total_rows = some total }) (r.1 h)), r.1))
        (λ processed progress j r h. (
          (
            clamp_progress-le (pos progress),
            Told-running
                (record j { processed_rows = processed; progress = clamp_progress (pos progress) })
                (r.1 h),
          ),
          r.1,
        ))
        out source job s refl

  settle-Sane :
      (fail : ℕ → Bool) (now : ℕ) (bucket key : String) (id : ℕ)
      (r : Jobs × Result ExportErr (ℕ × Workbook T))
      → All Sane r.0.table.rows
      → All Sane (settle out source fail now bucket key id r).0.table.rows
  settle-Sane fail now bucket key id (s, err e) h =
      set_job-All Sane Sane id (fail 2) _ s (λ j p. p) (λ j p _. (p.0, ((_, refl), (now, refl)))) h
  settle-Sane fail now bucket key id (s, ok (processed, book)) h =
      set_job-All Sane Sane id (fail 2) (succeed now bucket key processed) s (λ j p. p)
        (λ j p _. (omega arith, (refl, (key, refl), (bucket, refl), refl, (now, refl)))) h

  run_marked-Sane :
      (fail : ℕ → Bool) (now : ℕ) (bucket : String) (job : Job) (s : Jobs)
      → All Sane s.table.rows
      → All Sane
          (run_marked out source fail now bucket job
            (mark_running (fail 1) now job.id s)).0.table.rows
  run_marked-Sane fail now bucket job s h = elim (Bool-cases (fail 1)) [
    | inl f ↦ rw f h
    | inr f ↦
        let mark =
          λ (j : Job). record j { status = running; started_at = started now j.started_at } in
        let marked = (set_job false job.id mark s).0 in
        let going : All (Running job.id) marked.table.rows =
          All-update_where Sane (Running job.id) (has_id job.id) mark s.table.rows
            (λ j p _. ((p.0, tt), λ _. refl)) (λ j p n. (p, λ e. absurd (cc))) h in
        rw f (
          settle-Sane fail now bucket (result_key job) job.id (build out source job marked)
            (All-map (Running job.id) Sane _ (λ j r. r.0) (build-Sane job marked going)))
  ]

  handle_run-Sane :
      (is_uuid : String → Bool) (fail : ℕ → Bool) (now : ℕ) (bucket uuid : String) (s : Jobs)
      → All Sane s.table.rows
      → All Sane (handle_run out source is_uuid fail now bucket uuid s).0.table.rows
  unfolding handle_run
  handle_run-Sane is_uuid fail now bucket uuid s h =
      elim (Result-cases (get_by_uuid is_uuid (fail 0) uuid s)) [
        | inr (e, g) ↦ rw (g, handle_run) h
        | inl (job, g) ↦ rw (g, handle_run) (run_marked-Sane fail now bucket job s h)
      ]

keep-All : (P : Job → Type 0) (p : Job → Bool) (jobs : List Job) → All P jobs → All P (keep p jobs)
keep-All P p jobs h =
    All-map (λ j. P j × (p j ≡ true)) P (keep p jobs) (λ j b. b.0) (All-keep P p jobs h)

insert_job-Sane :
    (fail : ℕ → Bool) (enqueue_fails : Bool) (uuid kind params : String) (user now : ℕ) (s : Jobs)
    → All Sane s.table.rows
    → All Sane (insert_job fail enqueue_fails (new_job uuid kind params user now) s).0.table.rows
insert_job-Sane fail enqueue_fails uuid kind params user now s h = elim (Bool-cases (fail 0)) [
  | inl f ↦ rw f h
  | inr f ↦
      let job = new_job uuid kind params user now s.table.next in
      let added = All-append Sane s.table.rows (job ∷ []) h ((omega arith, tt), tt) in
      elim (Bool-cases enqueue_fails) [
        | inr g ↦ rw (f, g) added
        | inl g ↦ elim (Bool-cases (fail 1)) [
          | inl d ↦ rw (f, g, d) added
          | inr d ↦ rw (f, g, d) (keep-All Sane _ _ added)
        ]
      ]
]

create-Sane :
    (read : String → Option ExportParams) (fail : ℕ → Bool) (enqueue_fails : Bool) (uuid : String)
    (now : ℕ) (kind params : String) (user : ℕ) (s : Jobs)
    → All Sane s.table.rows
    → All Sane (create read fail enqueue_fails uuid now kind params user s).0.table.rows
unfolding create
create-Sane read fail enqueue_fails uuid now kind params user s h =
    elim (Bool-cases (valid_type kind)) [
      | inr e ↦ rw (e, create) h
      | inl e ↦ elim (Result-cases (validate_inspection_status read kind params)) [
        | inr (x, v) ↦ rw (e, v, create) h
        | inl (x, v) ↦
            rw (e, v, create) (insert_job-Sane fail enqueue_fails uuid kind params user now s h)
      ]
    ]

-- A request for an export, or a run of the worker for a queued job, with what it takes from outside.
pub data Call (T : Type 0) : Type 0 where
  requests :
      (String → Option ExportParams) → (ℕ → Bool) → Bool → String → ℕ → String → String → ℕ → Call T
  runs : Outside T → Source T → (String → Bool) → (ℕ → Bool) → ℕ → String → String → Call T

abbrev pub step : {T : Type 0} → Call T → Jobs → Jobs
step (requests read fail enqueue_fails uuid now kind params user) s =
    (create read fail enqueue_fails uuid now kind params user s).0
step (runs out source is_uuid fail now bucket uuid) s =
    (handle_run out source is_uuid fail now bucket uuid s).0

abbrev pub run : {T : Type 0} → List (Call T) → Jobs → Jobs
run [] s = s
run (call ∷ calls) s = run calls (step call s)

step-Sane :
    {T : Type 0} (call : Call T) (s : Jobs)
    → All Sane s.table.rows
    → All Sane (step call s).table.rows
step-Sane (requests read fail enqueue_fails uuid now kind params user) s h =
    create-Sane read fail enqueue_fails uuid now kind params user s h
step-Sane (runs out source is_uuid fail now bucket uuid) s h =
    handle_run-Sane out source is_uuid fail now bucket uuid s h

-- Whatever is requested and however often the worker runs a job, retries included, and whatever fails on
-- the way: the progress of every job stays a percentage, a job that has succeeded is at 100, has its file
-- and its end and no error, and a job that has failed has its message and its end.
pub run-Sane :
    {T : Type 0} (calls : List (Call T)) (s : Jobs)
    → All Sane s.table.rows
    → All Sane (run calls s).table.rows
run-Sane [] s h = h
run-Sane (call ∷ calls) s h = run-Sane calls (step call s) (step-Sane call s h)
