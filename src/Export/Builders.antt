-- ===== src/Export/Builders.antt =====
-- The three reports (backend/internal/export/build_problem.go, build_inspection.go,
-- build_projectstats.go). The tables do not change while a report is built; a line stands for a row
-- with the columns that the query joins to it. The spreadsheet is the list of the lines written to it;
-- how the cells of a line are rendered is left out, and `refuses` says which of them the spreadsheet library refuses.
use check.Common.{
  ℕ, suc, zero, ◌+◌, String, Bool, true, false, not, ◌&&◌, ◌||◌, Option, none, some, List, [], ◌∷◌,
  ◌++◌, ◌==◌, ltb, leb, str_eq, if◌then◌else◌, any, keep, length, take, skip, order_by, Result, ok,
  err,
}
use check.Export.Defs.{
  ExportErr, fault, out_of_fuel, ExportParams, status_as_id, status_as_string, time_bound, Jobs,
  percent,
}
use check.Export.Service.{set_total_rows, update_progress}

-- A count written to the sheet with the jobs that show it, or an error with the jobs as they are then.
abbrev pub Build : Type 0 → Type 0
Build R = Jobs → Jobs × Result ExportErr (ℕ × List R)

-- What comes after a page has been written: the progress, and the next page where this one was full.
abbrev pub after_page :
    {R : Type 0}
    → Bool
    → ℕ
    → List R
    → Build R
    → Jobs × Result ExportErr (Unit {0})
    → Jobs × Result ExportErr (ℕ × List R)
after_page last processed sheet rest (s, err e) = (s, err e)
after_page last processed sheet rest (s, ok done) =
    let more = rest s in if last then (s, ok (processed, sheet)) else more

module _ {R : Type 0} (refuses : R → Bool) (fail : ℕ → ℕ → Bool) (id total : ℕ) where
  -- The loop over pages of `size` rows; `fail offset i` says that the i-th call at this offset fails.
  unfoldable pub write_pages : ℕ → ℕ → List R → ℕ → ℕ → List R → Build R
  write_pages size zero rows offset processed sheet s = (s, err out_of_fuel)
  write_pages size (suc fuel) rows offset processed sheet s =
      let page = take size (skip offset rows) in
      let processed' = processed + length page in
      let rest = write_pages size fuel rows (offset + size) processed' (sheet ++ page) in
      if fail offset 0 || any refuses page
      then (s, err fault)
      else after_page (ltb (length page) size) processed' (sheet ++ page) rest
          (update_progress (fail offset 1) id processed' (percent processed' total) s)

  -- The loop over the rows of the project statistics, each of which moves the progress; `fail i 1` says
  -- that the update after the row i fails.
  abbrev pub write_each : List R → ℕ → List R → Build R
  write_each [] processed sheet s = (s, ok (processed, sheet))
  write_each (row ∷ rows) processed sheet s =
      let rest = write_each rows (suc processed) (sheet ++ row ∷ []) in
      if refuses row
      then (s, err fault)
      else after_page false (suc processed) sheet rest
          (update_progress (fail processed 1) id (suc processed) (percent (suc processed) total) s)

abbrev pub page_size : ℕ
page_size = 500

-- What the first calls of a builder lead to: the header, the count and the number of rows.
abbrev pub with_total :
    {R : Type 0}
    → Build R
    → Jobs × Result ExportErr (Unit {0})
    → Jobs × Result ExportErr (ℕ × List R)
with_total body (s, err e) = (s, err e)
with_total body (s, ok done) = body s

-- The body of the two list reports on the rows that their query selects. `opens 0` to
-- `opens 2` say that the sheet, the count or the update of the total fails. The fuel is one more than the
-- number of rows.
unfoldable pub build_list :
    {R : Type 0} → (R → Bool) → (ℕ → Bool) → (ℕ → ℕ → Bool) → ℕ → List R → Build R
build_list refuses opens fail id rows s =
    if opens 0 || opens 1
    then (s, err fault)
    else with_total
        (write_pages refuses fail id (length rows) page_size (suc (length rows)) rows 0 0 [])
        (set_total_rows (opens 2) id (length rows) s)

-- `buildProjectStats` on the rows of the statistics service.
unfoldable pub build_project_stats :
    {R : Type 0} → (R → Bool) → (ℕ → Bool) → (ℕ → ℕ → Bool) → ℕ → List R → Build R
build_project_stats refuses opens fail id rows s =
    if opens 0 || opens 1
    then (s, err fault)
    else with_total (write_each refuses fail id (length rows) rows 0 [])
        (set_total_rows (opens 2) id (length rows) s)

-- A bound of the filter that is not given admits every row.
abbrev pub bounded : {A : Type 0} → Option A → (A → Bool) → Bool
bounded none test = true
bounded (some v) test = test v

abbrev pub is_now : Option ℕ → ℕ → Bool
is_now none wanted = false
is_now (some v) wanted = v == wanted

-- A line of the problem list, with the columns that its filter reads.
pub record ProblemLine : Type 0 where
  pub id : ℕ
  pub project : String
  pub inspector : String
  pub type_label : String
  pub status_label : String
  pub category_label : String
  pub captured_at : ℕ
  pub description : String
  pub note : String
  pub project_id : ℕ
  pub inspector_id : ℕ
  pub inspection_id : Option ℕ
  pub type_item_id : Option ℕ
  pub status_item_id : Option ℕ
  pub category_item_id : Option ℕ
  pub deleted : Bool

-- `problemExportWhere`
abbrev pub problem_export_where : (String → Option ℕ) → ExportParams → ProblemLine → Bool
problem_export_where parse p l =
    not l.deleted
    && bounded p.project_id (λ v. l.project_id == v)
    && bounded p.inspector_id (λ v. l.inspector_id == v)
    && bounded p.inspection_id (is_now l.inspection_id)
    && bounded p.type_item (is_now l.type_item_id)
    && bounded (status_as_id p.status) (is_now l.status_item_id)
    && bounded p.category (is_now l.category_item_id)
    && bounded (time_bound parse p.since) (λ v. leb v l.captured_at)
    && bounded (time_bound parse p.until) (λ v. ltb l.captured_at v)

-- A line of the inspection records, with the columns that its filter reads.
pub record InspectionLine : Type 0 where
  pub id : ℕ
  pub project : String
  pub inspector : String
  pub status : String
  pub started_at : ℕ
  pub ended_at : Option ℕ
  pub duration_seconds : ℕ
  pub mileage_meters : ℕ
  pub point_count : ℕ
  pub project_id : ℕ
  pub inspector_id : ℕ
  pub deleted : Bool

-- `inspectionExportWhere`
abbrev pub inspection_export_where : (String → Option ℕ) → ExportParams → InspectionLine → Bool
inspection_export_where parse p l =
    not l.deleted
    && bounded p.project_id (λ v. l.project_id == v)
    && bounded p.inspector_id (λ v. l.inspector_id == v)
    && bounded (time_bound parse p.since) (λ v. leb v l.started_at)
    && bounded (time_bound parse p.until) (λ v. ltb l.started_at v)
    && bounded (status_as_string p.status) (λ v. str_eq l.status v)

-- `ORDER BY captured_at DESC, id DESC` and `ORDER BY started_at DESC, id DESC`.
abbrev pub later_first : ℕ → ℕ → ℕ → ℕ → Bool
later_first at id at' id' = ltb at' at || (at == at' && ltb id' id)

abbrev pub problem_lines : (String → Option ℕ) → ExportParams → List ProblemLine → List ProblemLine
problem_lines parse p lines =
    order_by (λ a b. later_first a.captured_at a.id b.captured_at b.id)
      (keep (problem_export_where parse p) lines)

abbrev pub inspection_lines :
    (String → Option ℕ) → ExportParams → List InspectionLine → List InspectionLine
inspection_lines parse p lines =
    order_by (λ a b. later_first a.started_at a.id b.started_at b.id)
      (keep (inspection_export_where parse p) lines)

-- `buildProblemList`
abbrev pub build_problem_list :
    (ProblemLine → Bool)
    → (ℕ → Bool)
    → (ℕ → ℕ → Bool)
    → (String → Option ℕ)
    → ExportParams
    → List ProblemLine
    → ℕ
    → Build ProblemLine
build_problem_list refuses opens fail parse p lines id =
    build_list refuses opens fail id (problem_lines parse p lines)

-- `buildInspectionRecords`
abbrev pub build_inspection_records :
    (InspectionLine → Bool)
    → (ℕ → Bool)
    → (ℕ → ℕ → Bool)
    → (String → Option ℕ)
    → ExportParams
    → List InspectionLine
    → ℕ
    → Build InspectionLine
build_inspection_records refuses opens fail parse p lines id =
    build_list refuses opens fail id (inspection_lines parse p lines)
