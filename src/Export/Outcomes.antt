-- ===== src/Export/Outcomes.antt =====
-- How one run of the worker and one request end (backend/internal/export/worker.go, service.go).
use check.Common.{
  ℕ, ◌<◌, ◌≡◌, refl, String, Bool, true, false, not, Option, List, [], ◌∷◌, ◌++◌, ◌==◌, All,
  All-update_where, keep, arith, Bool-cases, Result-cases, inl, inr, ◌⊎◌, Result, ok, err,
  insert_row,
}
use check.Export.Defs.{ExportErr, JobStatus, pending, succeeded, failed, ExportParams, Job, Jobs}
use check.Export.Service.{
  has_id, set_job, succeed, get_by_uuid, new_job, create, valid_type, validate_inspection_status,
}
use check.Export.Worker.{Source, Workbook, Outside, result_key, build, settle, handle_run}

-- The status that a run's report stands for.
abbrev pub verdict : Result ExportErr (Unit {0}) → JobStatus
verdict (ok done) = succeeded
verdict (err e) = failed

All-of : {A : Type 0} (P : A → Type 0) (xs : List A) → ((x : A) → P x) → All P xs
All-of P [] f = tt
All-of P (x ∷ xs) f = (f x, All-of P xs f)

set_job-status :
    (id : ℕ) (change : Job → Job) (status : JobStatus) (s : Jobs)
    → ((j : Job) → (change j).status ≡ status)
    → All (λ j. has_id id j ≡ true → j.status ≡ status) (set_job false id change s).0.table.rows
set_job-status id change status s h =
    All-update_where (λ _. Unit {0}) _ (has_id id) change s.table.rows (λ j _ _ _. h j)
      (λ j _ n e. absurd (cc)) (All-of _ s.table.rows (λ _. tt))

module _ {T : Type 0} (out : Outside T) (source : Source T) where
  settle-verdict :
      (fail : ℕ → Bool) (now : ℕ) (bucket key : String) (id : ℕ)
      (r : Jobs × Result ExportErr (ℕ × Workbook T))
      → fail 2 ≡ false
      → let after = settle out source fail now bucket key id r in
        All (λ j. has_id id j ≡ true → j.status ≡ verdict after.1) after.0.table.rows
  settle-verdict fail now bucket key id (s, err e) f =
      rw f (set_job-status id _ failed s (λ j. refl))
  settle-verdict fail now bucket key id (s, ok (processed, book)) f =
      rw f (set_job-status id (succeed now bucket key processed) succeeded s (λ j. refl))

  -- A run of a job that is found, where the updates of its status do not fail, leaves the job succeeded
  -- where it reports success and failed where it reports an error, whatever happened to the report.
  pub handle_run-verdict :
      (is_uuid : String → Bool) (fail : ℕ → Bool) (now : ℕ) (bucket uuid : String) (s : Jobs)
      (job : Job)
      → get_by_uuid is_uuid (fail 0) uuid s ≡ ok job
      → fail 1 ≡ false
      → fail 2 ≡ false
      → let after = handle_run out source is_uuid fail now bucket uuid s in
        All (λ j. has_id job.id j ≡ true → j.status ≡ verdict after.1) after.0.table.rows
  unfolding handle_run
  handle_run-verdict is_uuid fail now bucket uuid s job g f₁ f₂ =
      rw (g, f₁, handle_run)
        (settle-verdict fail now bucket (result_key job) job.id (build out source job _) f₂)

keep-older :
    (next : ℕ) (job : Job) (rows : List Job)
    → job.id ≡ next
    → All (λ j. j.id < next) rows
    → keep (λ (j : Job). not (j.id == next)) (insert_row job rows) ≡ rows
keep-older next job [] e h = ground arith
keep-older next job (j ∷ rows) e h = ground (arith, keep-older next job rows e h.1, h.0)

-- Where the database can delete, a request that is refused or cannot be enqueued leaves no job and no task
-- behind; one that is accepted leaves one pending job more, of the requested type, and its task.
pub create-cases :
    (read : String → Option ExportParams) (fail : ℕ → Bool) (enqueue_fails : Bool) (uuid : String)
    (now : ℕ) (kind params : String) (user : ℕ) (s : Jobs)
    → fail 1 ≡ false
    → All (λ j. j.id < s.table.next) s.table.rows
    → let out = create read fail enqueue_fails uuid now kind params user s in
      ((e : ExportErr) × (out.1 ≡ err e)
        × (out.0.table.rows ≡ s.table.rows)
        × (out.0.queue ≡ s.queue))
      ⊎ ((job : Job) × (out.1 ≡ ok job)
          × (job.status ≡ pending)
          × (job.kind ≡ kind)
          × (out.0.table.rows ≡ insert_row job s.table.rows)
          × (out.0.queue ≡ s.queue ++ job.job_uuid ∷ []))
unfolding create
create-cases read fail enqueue_fails uuid now kind params user s d below =
    let job = new_job uuid kind params user now s.table.next in
    elim (Bool-cases (valid_type kind)) [
      | inr e ↦ rw (e, create) (inl (_, refl, refl, refl))
      | inl e ↦ elim (Result-cases (validate_inspection_status read kind params)) [
        | inr (x, v) ↦ rw (e, v, create) (inl (x, refl, refl, refl))
        | inl (x, v) ↦ elim (Bool-cases (fail 0)) [
          | inl f ↦ rw (e, v, f, create) (inl (_, refl, refl, refl))
          | inr f ↦ elim (Bool-cases enqueue_fails) [
            | inl g ↦
                rw (e, v, f, g, d, create)
                  (inl (_, refl, keep-older s.table.next job s.table.rows refl below, refl))
            | inr g ↦ rw (e, v, f, g, create) (inr (job, refl, refl, refl, refl, refl))
          ]
        ]
      ]
    ]
