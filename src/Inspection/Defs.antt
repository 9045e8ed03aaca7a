-- ===== src/Inspection/Defs.antt =====
-- The rows of `inspections` and `trajectory_points`, the API types of backend/internal/inspection/service.go
-- and its errors. Instants are microseconds; `M` is the type of the double-precision lengths; the four
-- optional measurements of a point, which are copied, are left out.
use check.Common.{
  ℕ, String, Bool, Option, none, some, List, [], ◌∷◌, Table, str_eq, if◌then◌else◌, Result, ok, err,
}

abbrev pub Bytes : Type 0
Bytes = List ℕ

pub data Status : Type 0 where
  in_progress finished abandoned : Status

pub data InspectionErr : Type 0 where
  not_found not_in_progress ended_before_started : InspectionErr
  project_missing task_missing inspector_missing : InspectionErr
  fault : InspectionErr

-- A row of `inspections`.
pub record Row (M : Type 0) : Type 0 where
  pub id : ℕ
  pub client_uuid : ℕ
  pub project_id : ℕ
  pub task_id : Option ℕ
  pub inspector_id : ℕ
  pub status : Status
  pub started_at : ℕ
  pub ended_at : Option ℕ
  pub duration_seconds : ℕ
  pub mileage_meters : M
  pub point_count : ℕ
  pub route_geom : Option Bytes
  pub device_info : Bytes
  pub note : String
  pub created_by : ℕ
  pub updated_by : ℕ
  pub deleted : Bool

-- A row of `trajectory_points`.
pub record PointRow : Type 0 where
  pub id : ℕ
  pub client_uuid : ℕ
  pub inspection_id : ℕ
  pub seq : ℕ
  pub geom : Bytes
  pub recorded_at : ℕ

-- The two tables, with the ids that the foreign keys refer to.
pub record Db (M : Type 0) : Type 0 where
  pub inspections : Table (Row M)
  pub points : List PointRow
  pub projects : List ℕ
  pub tasks : List ℕ
  pub users : List ℕ

-- `oapi.Inspection`, with the route as `G` and the device's description as `J`.
pub record Inspection (M G J : Type 0) : Type 0 where
  pub id : ℕ
  pub client_uuid : ℕ
  pub project_id : ℕ
  pub task_id : Option ℕ
  pub inspector_id : ℕ
  pub status : Status
  pub started_at : ℕ
  pub ended_at : Option ℕ
  pub duration_seconds : ℕ
  pub mileage_meters : M
  pub point_count : ℕ
  pub route_geom : Option G
  pub device_info : Option J
  pub note : Option String

-- `if note != ""`
abbrev pub note_of : String → Option String
note_of s = if str_eq s "" then none else some s

-- `decodeLineStringEWKB`: a null column is no route.
abbrev pub decode_route :
    {G : Type 0} → (Bytes → Option G) → Option Bytes → Result InspectionErr (Option G)
decode_route line none = ok none
decode_route line (some ewkb) = elim (line ewkb) [ none ↦ err fault | some g ↦ ok (some g) ]

-- What `json.Unmarshal` and the test for an empty object give: `none` when either fails.
abbrev pub device_of : {J : Type 0} → (Bytes → Option J) → Bytes → Option J
device_of json [] = none
device_of json (b ∷ bs) = json (b ∷ bs)

abbrev pub inspection_at :
    {M G J : Type 0} → (Bytes → Option J) → Row M → Option G → Inspection M G J
inspection_at json r route = record {
  id = r.id;
  client_uuid = r.client_uuid;
  project_id = r.project_id;
  task_id = r.task_id;
  inspector_id = r.inspector_id;
  status = r.status;
  started_at = r.started_at;
  ended_at = r.ended_at;
  duration_seconds = r.duration_seconds;
  mileage_meters = r.mileage_meters;
  point_count = r.point_count;
  route_geom = route;
  device_info = device_of json r.device_info;
  note = note_of r.note;
}

-- `scanInspection`
abbrev pub scan_inspection :
    {M G J : Type 0}
    → (Bytes → Option G)
    → (Bytes → Option J)
    → Row M
    → Result InspectionErr (Inspection M G J)
scan_inspection line json r = elim (decode_route line r.route_geom) [
  | err e ↦ err e
  | ok route ↦ ok (inspection_at json r route)
]

-- `StartInput`
pub record StartInput (J : Type 0) : Type 0 where
  pub project_id : ℕ
  pub started_at : ℕ
  pub inspector_id : ℕ
  pub client_uuid : Option ℕ
  pub task_id : Option ℕ
  pub device_info : Option J
  pub note : Option String

-- `FinishInput`
pub record FinishInput : Type 0 where
  pub ended_at : Option ℕ
  pub note : Option String
  pub discard : Bool
