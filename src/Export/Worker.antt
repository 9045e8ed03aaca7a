-- ===== src/Export/Worker.antt =====
-- The worker of the export jobs (backend/internal/export/worker.go).
use check.Common.{
  ℕ, String, Bool, ◌||◌, Option, none, some, List, str_eq, if◌then◌else◌, Result, ok, err,
}
use Prim.Native.String.{◌++◌ as text_append}
use check.Export.Defs.{ExportErr, invalid_type, fault, ExportParams, Job, Jobs}
use check.Export.Service.{
  inspection_records, problem_list, project_stats, get_by_uuid, mark_running, mark_succeeded,
  mark_failed,
}
use check.Export.Builders.{
  build_problem_list, build_inspection_records, build_project_stats, ProblemLine, InspectionLine,
}

-- What the tables hold while a report is built: the lines of the two queries, and those of the
-- statistics service for a filter, of type T.
pub record Source (T : Type 0) : Type 0 where
  pub problems : List ProblemLine
  pub inspections : List InspectionLine
  pub projects : ExportParams → List T

-- A workbook with its one sheet.
pub data Workbook (T : Type 0) : Type 0 where
  problem_sheet : List ProblemLine → Workbook T
  inspection_sheet : List InspectionLine → Workbook T
  stats_sheet : List T → Workbook T

abbrev pub as_workbook :
    {R T : Type 0}
    → (List R → Workbook T)
    → Jobs × Result ExportErr (ℕ × List R)
    → Jobs × Result ExportErr (ℕ × Workbook T)
as_workbook wrap (s, err e) = (s, err e)
as_workbook wrap (s, ok (processed, sheet)) = (s, ok (processed, wrap sheet))

-- What a run takes from outside: what the spreadsheet library refuses, which calls fail, and the
-- decoders.
pub record Outside (T : Type 0) : Type 0 where
  pub refuses_problem : ProblemLine → Bool
  pub refuses_inspection : InspectionLine → Bool
  pub refuses_project : T → Bool
  pub opens : ℕ → Bool
  pub fail_page : ℕ → ℕ → Bool
  pub read_params : String → Option ExportParams
  pub parse_time : String → Option ℕ
  pub serialize_fails : Bool
  pub upload_fails : Bool

-- `resultKey`
abbrev pub result_key : Job → String
result_key job =
    text_append "exports/"
      (text_append job.kind (text_append "/" (text_append job.job_uuid ".xlsx")))

module _ {T : Type 0} (out : Outside T) (source : Source T) where
  -- `switch job.Type`
  abbrev pub build_kind : Job → ExportParams → Jobs → Jobs × Result ExportErr (ℕ × Workbook T)
  build_kind job p s =
      if str_eq job.kind inspection_records
      then as_workbook inspection_sheet (
          build_inspection_records out.refuses_inspection out.opens out.fail_page out.parse_time p
            source.inspections job.id s)
      else if str_eq job.kind problem_list
      then as_workbook problem_sheet (
          build_problem_list out.refuses_problem out.opens out.fail_page out.parse_time p
            source.problems job.id s)
      else if str_eq job.kind project_stats
      then as_workbook stats_sheet (
          build_project_stats out.refuses_project out.opens out.fail_page job.id (source.projects p)
            s)
      else (s, err invalid_type)

  -- The workbook is serialized and uploaded.
  abbrev pub deliver :
      Jobs × Result ExportErr (ℕ × Workbook T) → Jobs × Result ExportErr (ℕ × Workbook T)
  deliver (s, err e) = (s, err e)
  deliver (s, ok built) =
      if out.serialize_fails || out.upload_fails then (s, err fault) else (s, ok built)

  -- `build`
  unfoldable pub build : Job → Jobs → Jobs × Result ExportErr (ℕ × Workbook T)
  build job s = elim (out.read_params job.params) [
    | none ↦ (s, err fault)
    | some p ↦ deliver (build_kind job p s)
  ]

  -- `clientSafe`
  abbrev pub client_safe : String
  client_safe = "export failed while generating the report"

  abbrev pub settle :
      (ℕ → Bool)
      → ℕ
      → String
      → String
      → ℕ
      → Jobs × Result ExportErr (ℕ × Workbook T)
      → Jobs × Result ExportErr (Unit {0})
  settle fail now bucket key id (s, err e) = ((mark_failed (fail 2) now id client_safe s).0, err e)
  settle fail now bucket key id (s, ok (processed, book)) =
      mark_succeeded (fail 2) now id bucket key processed s

  abbrev pub run_marked :
      (ℕ → Bool)
      → ℕ
      → String
      → Job
      → Jobs × Result ExportErr (Unit {0})
      → Jobs × Result ExportErr (Unit {0})
  run_marked fail now bucket job (s, err e) = (s, err e)
  run_marked fail now bucket job (s, ok done) =
      settle fail now bucket (result_key job) job.id (build job s)

  -- `handleRun` on a job's UUID.
  unfoldable pub handle_run :
      (String → Bool) → (ℕ → Bool) → ℕ → String → String → Jobs → Jobs × Result ExportErr (Unit {0})
  handle_run is_uuid fail now bucket uuid s = elim (get_by_uuid is_uuid (fail 0) uuid s) [
    | err e ↦ (s, err e)
    | ok job ↦ run_marked fail now bucket job (mark_running (fail 1) now job.id s)
  ]
