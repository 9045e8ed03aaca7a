-- ===== src/Export/Keeps.antt =====
-- What every run of the worker keeps of the jobs (backend/internal/export/worker.go, service.go).
use check.Common.{
  ℕ, zero, suc, ◌+◌, ◌≡◌, pos, Bool, true, false, ◌||◌, some, List, [], ◌∷◌, ◌++◌, any, All,
  All-map, All-update_where, ltb, length, take, skip, Bool-cases, Option-cases, inl, inr, Result,
  ok, err, str_eq,
}
use check.Export.Defs.{ExportErr, ExportParams, Job, Jobs, clamp_progress, percent}
use check.Export.Service.{
  has_id, set_job, set_total_rows, update_progress, inspection_records, problem_list, project_stats,
}
use check.Export.Builders.{
  Build, after_page, write_pages, write_each, build_list, build_project_stats, page_size,
  with_total, problem_lines, inspection_lines,
}
use check.Export.Worker.{
  Source, Workbook, problem_sheet, inspection_sheet, stats_sheet, as_workbook, Outside, build_kind,
  deliver, build,
}

module _ (P Q : Job → Type 0) (id : ℕ) where
  pub set_job-All :
      (fails : Bool) (change : Job → Job) (s : Jobs)
      → ((j : Job) → P j → Q j)
      → ((j : Job) → P j → has_id id j ≡ true → Q (change j))
      → All P s.table.rows
      → All Q (set_job fails id change s).0.table.rows
  set_job-All true change s weak hit h = All-map P Q s.table.rows weak h
  set_job-All false change s weak hit h =
      All-update_where P Q (has_id id) change s.table.rows hit (λ j p _. weak j p) h

-- What the two updates of a builder keep of each job, the builder keeps.
module _ (P : Job → Type 0) (id : ℕ)
    (on_total : (total : ℕ) (j : Job)
      → P j
      → has_id id j ≡ true
      → P (record j { total_rows = some total }))
    (on_progress : (processed progress : ℕ) (j : Job)
      → P j
      → has_id id j ≡ true
      → P (record j { processed_rows = processed; progress = clamp_progress (pos progress) })) where
  abbrev Kept : Jobs → Type 0
  Kept s = All P s.table.rows

  module _ {R : Type 0} (refuses : R → Bool) (fail : ℕ → ℕ → Bool) (total : ℕ) where
    after_page-Kept :
        (last fails : Bool) (processed progress : ℕ) (sheet : List R) (rest : Build R) (s : Jobs)
        → ((s' : Jobs) → Kept s' → Kept (rest s').0)
        → Kept s
        → Kept
            (after_page last processed sheet rest (update_progress fails id processed progress s)).0
    after_page-Kept last true processed progress sheet rest s later h = h
    after_page-Kept true false processed progress sheet rest s later h =
        set_job-All P P id false _ s (λ j p. p) (on_progress processed progress) h
    after_page-Kept false false processed progress sheet rest s later h =
        later _ (set_job-All P P id false _ s (λ j p. p) (on_progress processed progress) h)

    write_pages-Kept :
        (size fuel : ℕ) (rows : List R) (offset processed : ℕ) (sheet : List R) (s : Jobs)
        → Kept s
        → Kept (write_pages refuses fail id total size fuel rows offset processed sheet s).0
    unfolding write_pages
    write_pages-Kept size zero rows offset processed sheet s h = h
    write_pages-Kept size (suc fuel) rows offset processed sheet s h =
        let page = take size (skip offset rows) in
        elim (Bool-cases (fail offset 0 || any refuses page)) [
          | inl f ↦ rw f h
          | inr f ↦ rw f (
              after_page-Kept (ltb (length page) size) (fail offset 1) (processed + length page)
                (percent (processed + length page) total) (sheet ++ page)
                (write_pages refuses fail id total size fuel rows (offset + size)
                  (processed + length page) (sheet ++ page))
                s
                (λ s' k.
                  write_pages-Kept size fuel rows (offset + size) (processed + length page)
                    (sheet ++ page) s' k)
                h)
        ]

    write_each-Kept :
        (rows : List R) (processed : ℕ) (sheet : List R) (s : Jobs)
        → Kept s
        → Kept (write_each refuses fail id total rows processed sheet s).0
    write_each-Kept [] processed sheet s h = h
    write_each-Kept (row ∷ rows) processed sheet s h = elim (Bool-cases (refuses row)) [
      | inl f ↦ rw f h
      | inr f ↦ rw f (
          after_page-Kept false (fail processed 1) (suc processed) (percent (suc processed) total)
            sheet (write_each refuses fail id total rows (suc processed) (sheet ++ row ∷ [])) s
            (λ s' k. write_each-Kept rows (suc processed) (sheet ++ row ∷ []) s' k) h)
    ]

  with_total-Kept :
      {R : Type 0} (body : Build R) (fails : Bool) (total : ℕ) (s : Jobs)
      → ((s' : Jobs) → Kept s' → Kept (body s').0)
      → Kept s
      → Kept (with_total body (set_total_rows fails id total s)).0
  with_total-Kept body true total s later h = h
  with_total-Kept body false total s later h =
      later _ (set_job-All P P id false _ s (λ j p. p) (on_total total) h)

  build_list-Kept :
      {R : Type 0} (refuses : R → Bool) (opens : ℕ → Bool) (fail : ℕ → ℕ → Bool) (rows : List R)
      (s : Jobs)
      → Kept s
      → Kept (build_list refuses opens fail id rows s).0
  unfolding build_list
  build_list-Kept refuses opens fail rows s h = elim (Bool-cases (opens 0 || opens 1)) [
    | inl f ↦ rw f h
    | inr f ↦ rw f (
        with_total-Kept
          (write_pages refuses fail id (length rows) page_size (suc (length rows)) rows 0 0 [])
          (opens 2) (length rows) s
          (write_pages-Kept refuses fail (length rows) page_size (suc (length rows)) rows 0 0 []) h)
  ]

  build_project_stats-Kept :
      {R : Type 0} (refuses : R → Bool) (opens : ℕ → Bool) (fail : ℕ → ℕ → Bool) (rows : List R)
      (s : Jobs)
      → Kept s
      → Kept (build_project_stats refuses opens fail id rows s).0
  unfolding build_project_stats
  build_project_stats-Kept refuses opens fail rows s h = elim (Bool-cases (opens 0 || opens 1)) [
    | inl f ↦ rw f h
    | inr f ↦ rw f (
        with_total-Kept (write_each refuses fail id (length rows) rows 0 []) (opens 2) (length rows)
          s (write_each-Kept refuses fail (length rows) rows 0 []) h)
  ]

  as_workbook-Kept :
      {R T : Type 0} (wrap : List R → Workbook T) (r : Jobs × Result ExportErr (ℕ × List R))
      → Kept r.0
      → Kept (as_workbook wrap r).0
  as_workbook-Kept wrap (s, err e) h = h
  as_workbook-Kept wrap (s, ok b) h = h

  module _ {T : Type 0} (out : Outside T) (source : Source T) where
    deliver-Kept :
        (r : Jobs × Result ExportErr (ℕ × Workbook T)) → Kept r.0 → Kept (deliver out source r).0
    deliver-Kept (s, err e) h = h
    deliver-Kept (s, ok built) h = elim (Bool-cases (out.serialize_fails || out.upload_fails)) [
      | inl f ↦ rw f h
      | inr f ↦ rw f h
    ]

    build_kind-Kept :
        (job : Job) (p : ExportParams) (s : Jobs)
        → job.id ≡ id
        → Kept s
        → Kept (build_kind out source job p s).0
    build_kind-Kept job p s same h = elim (Bool-cases (str_eq job.kind inspection_records)) [
      | inl e ↦
          rw (e, same)
            (as_workbook-Kept inspection_sheet _ (
              build_list-Kept out.refuses_inspection out.opens out.fail_page
                (inspection_lines out.parse_time p source.inspections) s h))
      | inr e ↦ elim (Bool-cases (str_eq job.kind problem_list)) [
        | inl f ↦
            rw (e, f, same)
              (as_workbook-Kept problem_sheet _ (
                build_list-Kept out.refuses_problem out.opens out.fail_page
                  (problem_lines out.parse_time p source.problems) s h))
        | inr f ↦ elim (Bool-cases (str_eq job.kind project_stats)) [
          | inl g ↦
              rw (e, f, g, same)
                (as_workbook-Kept stats_sheet _ (
                  build_project_stats-Kept out.refuses_project out.opens out.fail_page
                    (source.projects p) s h))
          | inr g ↦ rw (e, f, g) h
        ]
      ]
    ]

    pub build-Kept : (job : Job) (s : Jobs) → job.id ≡ id → Kept s → Kept (build out source job s).0
    unfolding build
    build-Kept job s same h = elim (Option-cases (out.read_params job.params)) [
      | inl e ↦ rw (e, build) h
      | inr (p, e) ↦
          rw (e, build)
            (deliver-Kept (build_kind out source job p s) (build_kind-Kept job p s same h))
    ]
