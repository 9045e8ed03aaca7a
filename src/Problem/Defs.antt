-- ===== src/Problem/Defs.antt =====
-- The tables of the problems and of their processing log (backend/internal/problem), and how their
-- rows are read. Instants, UUIDs and ids are numbers; `deleted` is `deleted_at IS NOT NULL`. The EWKB
-- codec of the geometry library is a parameter.
use check.Common.{
  ℕ, String, Bool, Option, none, some, List, str_eq, if◌then◌else◌, Table, Result, ok, err,
}

abbrev pub Bytes : Type 0
Bytes = List ℕ

-- The package's sentinels, and any other failure.
pub data ProblemErr : Type 0 where
  not_found project_missing inspector_missing invalid_log_action : ProblemErr
  fault : ProblemErr

-- A row of `problems`.
pub record Row : Type 0 where
  pub id : ℕ
  pub client_uuid : ℕ
  pub project_id : ℕ
  pub inspection_id : Option ℕ
  pub inspector_id : ℕ
  pub geom : Bytes
  pub type_item_id : Option ℕ
  pub status_item_id : Option ℕ
  pub category_item_id : Option ℕ
  pub dict_version_used : ℕ
  pub title : String
  pub description : String
  pub note : String
  pub captured_at : ℕ
  pub cover_media_id : Option ℕ
  pub created_by : ℕ
  pub updated_by : ℕ
  pub created_at : ℕ
  pub updated_at : ℕ
  pub deleted : Bool

-- A row of `problem_processing_log`.
pub record LogRow : Type 0 where
  pub id : ℕ
  pub problem_id : ℕ
  pub action : String
  pub from_status_item_id : Option ℕ
  pub to_status_item_id : Option ℕ
  pub note : String
  pub operator_id : ℕ
  pub created_at : ℕ

-- The two tables, and the ids of the tables that their foreign keys refer to. The version is that of
-- the row of `dict_type` whose code is 'problem_type'.
pub record Db : Type 0 where
  pub problems : Table Row
  pub logs : Table LogRow
  pub project_ids : List ℕ
  pub inspection_ids : List ℕ
  pub user_ids : List ℕ
  pub dict_item_ids : List ℕ
  pub media_ids : List ℕ
  pub problem_type_version : Option ℕ

-- `oapi.Problem`, with the point of type G.
pub record Problem (G : Type 0) : Type 0 where
  pub id : ℕ
  pub client_uuid : ℕ
  pub project_id : ℕ
  pub inspection_id : Option ℕ
  pub inspector_id : ℕ
  pub geom : G
  pub type_item_id : Option ℕ
  pub status_item_id : Option ℕ
  pub category_item_id : Option ℕ
  pub dict_version_used : ℕ
  pub title : Option String
  pub description : Option String
  pub note : Option String
  pub captured_at : ℕ
  pub cover_media_id : Option ℕ
  pub created_at : ℕ
  pub updated_at : ℕ

-- `oapi.ProblemProcessingLog`
pub record ProcessingLog : Type 0 where
  pub id : ℕ
  pub problem_id : ℕ
  pub action : String
  pub from_status_item_id : Option ℕ
  pub to_status_item_id : Option ℕ
  pub note : Option String
  pub operator_id : ℕ
  pub created_at : ℕ

-- `if s != "" { p.X = &s }`
abbrev pub nonempty : String → Option String
nonempty s = if str_eq s "" then none else some s

-- `derefStr`
abbrev pub deref_str : Option String → String
deref_str none = ""
deref_str (some s) = s

abbrev pub problem_at : {G : Type 0} → Row → G → Problem G
problem_at r geom = record {
  id = r.id;
  client_uuid = r.client_uuid;
  project_id = r.project_id;
  inspection_id = r.inspection_id;
  inspector_id = r.inspector_id;
  geom = geom;
  type_item_id = r.type_item_id;
  status_item_id = r.status_item_id;
  category_item_id = r.category_item_id;
  dict_version_used = r.dict_version_used;
  title = nonempty r.title;
  description = nonempty r.description;
  note = nonempty r.note;
  captured_at = r.captured_at;
  cover_media_id = r.cover_media_id;
  created_at = r.created_at;
  updated_at = r.updated_at;
}

-- `scanProblem`: a geometry that does not decode fails the read.
abbrev pub scan_problem : {G : Type 0} → (Bytes → Option G) → Row → Result ProblemErr (Problem G)
scan_problem decode r = elim (decode r.geom) [
  | none ↦ err fault
  | some geom ↦ ok (problem_at r geom)
]

-- `scanLog`
abbrev pub scan_log : LogRow → ProcessingLog
scan_log l = record {
  id = l.id;
  problem_id = l.problem_id;
  action = l.action;
  from_status_item_id = l.from_status_item_id;
  to_status_item_id = l.to_status_item_id;
  note = nonempty l.note;
  operator_id = l.operator_id;
  created_at = l.created_at;
}

-- `CreateInput`
pub record CreateInput : Type 0 where
  pub project_id : ℕ
  pub geom : Bytes
  pub captured_at : ℕ
  pub inspector_id : ℕ
  pub client_uuid : Option ℕ
  pub inspection_id : Option ℕ
  pub type_item_id : Option ℕ
  pub status_item_id : Option ℕ
  pub category_item_id : Option ℕ
  pub dict_version_used : Option ℕ
  pub cover_media_id : Option ℕ
  pub title : Option String
  pub description : Option String
  pub note : Option String

-- `UpdateInput`: what is not given stays as it is.
pub record UpdateInput : Type 0 where
  pub status_item_id : Option ℕ
  pub category_item_id : Option ℕ
  pub type_item_id : Option ℕ
  pub inspection_id : Option ℕ
  pub cover_media_id : Option ℕ
  pub title : Option String
  pub description : Option String
  pub note : Option String

-- `CreateLogInput`
pub record CreateLogInput : Type 0 where
  pub action : String
  pub note : Option String
  pub operator_id : Option ℕ

-- `ListFilter`
pub record ListFilter : Type 0 where
  pub project_id : Option ℕ
  pub type_item : Option ℕ
  pub status : Option ℕ
  pub category : Option ℕ
  pub inspector_id : Option ℕ
  pub inspection_id : Option ℕ
  pub since : Option ℕ
  pub until : Option ℕ
