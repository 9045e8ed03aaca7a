-- ===== src/Tests/ProblemTests.antt =====
-- The theorems on problems for one district's table.
use check.Common.{
  ℕ, ◌≡◌, refl, Bool, true, false, Option, none, some, List, [], ◌∷◌, pos, ok, err, find?, arith,
  ◌≤◌, ◌⊎◌, length, with_tx, keep, any, All, update_where, insert_row, if◌then◌else◌, ◌==◌, Ordered,
  Serial,
}
use mathlib.Core.List.{Mem, Permᴰ}
use check.Problem.Defs.{
  Bytes, ProblemErr, ProcessingLog, Row, Db, Problem, CreateInput, UpdateInput, CreateLogInput,
  ListFilter, scan_problem,
}
use check.Problem.Service.{
  live, revise, status_changed, change_row, create, update, update_body, delete, create_log,
  get_by_client_uuid, resolve_dict_version,
}
use check.Problem.Audit.{Consistent}
use check.Problem.Runs.{Call, creates, updates, deletes, logs, run, run-Consistent}
use check.Problem.Queries.{
  list, map_layer, list_logs, DictLabel, ProblemFeature, matches, newer, map_limit_max,
}
use check.Problem.Scan.{ids}
use check.Problem.Pages.{capture_key, list-eq-ok, list-pages, map_layer-list}
use check.Problem.Logs.{earlier, list_logs-eq-ok}
use check.Problem.Outcomes.{update-cases, create-again}

abbrev point : Bytes → Option ℕ
point [] = none
point (b ∷ bytes) = some b

abbrev quiet : ℕ → Bool
quiet _ = false

abbrev district : Db
district = record {
  problems = record { rows = []; next = 1 };
  logs = record { rows = []; next = 1 };
  project_ids = 1 ∷ [];
  inspection_ids = [];
  user_ids = 7 ∷ 8 ∷ [];
  dict_item_ids = 20 ∷ 21 ∷ [];
  media_ids = [];
  problem_type_version = some 3;
}

abbrev pothole : CreateInput
pothole = record {
  project_id = 1;
  geom = 9 ∷ [];
  captured_at = 100;
  inspector_id = 7;
  client_uuid = some 55;
  inspection_id = none;
  type_item_id = none;
  status_item_id = some 20;
  category_item_id = none;
  dict_version_used = none;
  cover_media_id = none;
  title = some "pothole";
  description = none;
  note = none;
}

abbrev solve : UpdateInput
solve = record {
  status_item_id = some 21;
  category_item_id = none;
  type_item_id = none;
  inspection_id = none;
  cover_media_id = none;
  title = none;
  description = none;
  note = none;
}

abbrev remark : CreateLogInput
remark = record { action = "COMMENT"; note = some "ok"; operator_id = none }

abbrev day : List Call
day =
    creates quiet 900 10 pothole 7
    ∷ updates quiet 11 1 solve 8
    ∷ logs quiet 12 1 remark 7
    ∷ deletes false 13 1 8
    ∷ []

day_ends : (run point day district).logs.next ≡ 3
unfolding create update update_body delete create_log get_by_client_uuid resolve_dict_version
    with_tx
day_ends = refl

run-Consistent_example : Consistent (run point day district)
run-Consistent_example = run-Consistent point day district (omega arith, tt, tt, tt)

abbrev reported : Db
reported = (create point quiet 900 10 pothole 7 district).0

abbrev pothole_row : Problem ℕ
pothole_row = record {
  id = 1;
  client_uuid = 55;
  project_id = 1;
  inspection_id = none;
  inspector_id = 7;
  geom = 9;
  type_item_id = none;
  status_item_id = some 20;
  category_item_id = none;
  dict_version_used = 3;
  title = some "pothole";
  description = none;
  note = none;
  captured_at = 100;
  cover_media_id = none;
  created_at = 10;
  updated_at = 10;
}

reports : (create point quiet 900 10 pothole 7 district).1 ≡ ok pothole_row
unfolding create get_by_client_uuid resolve_dict_version
reports = refl

create-again_example :
    create point (λ _. false) 901 40 (record pothole { title = none }) 8 reported
    ≡ (reported, ok pothole_row)
create-again_example =
    create-again point quiet 900 901 10 40 7 8 55 pothole (record pothole { title = none }) district
      pothole_row refl refl reports

update-cases_example :
    let out = update point quiet 11 1 solve 8 reported in
    ((e : ProblemErr) × (out.1 ≡ err e) × (out.0 ≡ reported))
    ⊎ ((p : Problem ℕ) × (r : Row) × (out.1 ≡ ok p)
        × (find? (live 1) reported.problems.rows ≡ some r)
        × (scan_problem point (revise solve 8 11 r) ≡ ok p)
        × (out.0.problems.rows ≡ update_where (live 1) (revise solve 8 11) reported.problems.rows)
        × (out.0.logs.rows ≡ (
            if status_changed solve.status_item_id r.status_item_id
            then insert_row
                (change_row 1 r.status_item_id solve.status_item_id 8 11 reported.logs.next)
                reported.logs.rows
            else reported.logs.rows)))
update-cases_example = update-cases point quiet 11 1 solve 8 reported

abbrev all : ListFilter
all = record {
  project_id = none;
  type_item = none;
  status = none;
  category = none;
  inspector_id = none;
  inspection_id = none;
  since = none;
  until = none;
}

-- Three reports, of which two are captured at the same instant.
abbrev three : Db
three =
    run point
      (creates quiet 900 10 pothole 7
        ∷ creates quiet 901 11 (record pothole { client_uuid = none; captured_at = 200 }) 7
        ∷ creates quiet 902 12 (record pothole { client_uuid = none }) 8
        ∷ [])
      district

abbrev entry : ℕ → ℕ → ℕ → ℕ → Problem ℕ
entry id uuid captured now = record pothole_row {
  id = id;
  client_uuid = uuid;
  captured_at = captured;
  created_at = now;
  updated_at = now;
}

lists_two : list point quiet all 2 0 three ≡ ok (entry 2 901 200 11 ∷ entry 3 902 100 12 ∷ [], 3)
unfolding list create get_by_client_uuid resolve_dict_version
lists_two = refl

abbrev front_swapped : List Row → List Row
front_swapped (a ∷ b ∷ rows) = b ∷ a ∷ rows
front_swapped rows = rows

-- The same three, held in another order.
abbrev moved : Db
moved = record three {
  problems = record three.problems { rows = front_swapped three.problems.rows };
}

three-reordered : Permᴰ three.problems.rows moved.problems.rows
unfolding create get_by_client_uuid resolve_dict_version
three-reordered = Permᴰ.swap refl refl

three-Serial : Serial Row.id 0 three.problems.next three.problems.rows
unfolding create get_by_client_uuid resolve_dict_version
three-Serial = (omega arith, (omega arith, (omega arith, omega arith)))

lists_last : list point quiet all 2 2 moved ≡ ok (entry 1 55 100 10 ∷ [], 3)
unfolding list create get_by_client_uuid resolve_dict_version
lists_last = refl

list-eq-ok_example :
    let page = entry 2 901 200 11 ∷ entry 3 902 100 12 ∷ [] in
    (length page ≤ 2)
    × Ordered (λ p q. newer (capture_key p) (capture_key q)) page
    × All
        (λ p.
          (r : Row) × Mem r three.problems.rows
          × (matches all r ≡ true)
          × (scan_problem point r ≡ ok p))
        page
    × (3 ≡ length (keep (matches all) three.problems.rows))
list-eq-ok_example = list-eq-ok point quiet all 2 0 three _ 3 lists_two

list-pages_example :
    (list point (λ _. false) all 4 0 three
      ≡ ok (entry 2 901 200 11 ∷ entry 3 902 100 12 ∷ entry 1 55 100 10 ∷ [], 3))
    × ◌≡◌ {A = ℕ} 3 3
list-pages_example =
    list-pages point quiet quiet all 2 2 0 three moved
      (entry 2 901 200 11 ∷ entry 3 902 100 12 ∷ []) (entry 1 55 100 10 ∷ []) 3 3 three-Serial
      three-reordered lists_two lists_last

abbrev items : List DictLabel
items = record { id = 20; label = "open"; color = "red" } ∷ []

abbrev feature : ℕ → ℕ → ProblemFeature ℕ
feature id captured = record {
  id = id;
  geometry = 9;
  title = some "pothole";
  captured_at = captured;
  type_item_id = none;
  status_item_id = some 20;
  category_item_id = none;
  cover_media_id = none;
  type_label = none;
  status_label = some "open";
  status_color = some "red";
}

maps_two : map_layer point items false all (pos 2) three ≡ ok (feature 2 200 ∷ feature 3 100 ∷ [])
unfolding map_layer create get_by_client_uuid resolve_dict_version
maps_two = refl

map_layer-list_example :
    (2 ≤ map_limit_max) × (ids ProblemFeature.id (feature 2 200 ∷ feature 3 100 ∷ []) ≡ 2 ∷ 3 ∷ [])
map_layer-list_example =
    map_layer-list point point items all (pos 2) three (feature 2 200 ∷ feature 3 100 ∷ [])
      (entry 2 901 200 11 ∷ entry 3 902 100 12 ∷ []) 3 quiet maps_two lists_two

abbrev solved : Db
solved = run point (updates quiet 11 1 solve 8 ∷ logs quiet 12 1 remark 7 ∷ []) reported

abbrev solved_entries : List ProcessingLog
solved_entries =
    record {
      id = 1;
      problem_id = 1;
      action = "STATUS_CHANGE";
      from_status_item_id = some 20;
      to_status_item_id = some 21;
      note = none;
      operator_id = 8;
      created_at = 11;
    }
    ∷ record {
      id = 2;
      problem_id = 1;
      action = "COMMENT";
      from_status_item_id = none;
      to_status_item_id = none;
      note = some "ok";
      operator_id = 7;
      created_at = 12;
    }
    ∷ []

reads_log : list_logs quiet 1 solved ≡ ok solved_entries
unfolding list_logs create update update_body create_log get_by_client_uuid resolve_dict_version
    with_tx
reads_log = refl

list_logs-eq-ok_example :
    (any (live 1) solved.problems.rows ≡ true)
    × (2 ≡ length (keep (λ l. l.problem_id == 1) solved.logs.rows))
    × Ordered earlier solved_entries
list_logs-eq-ok_example = list_logs-eq-ok quiet 1 solved solved_entries reads_log
