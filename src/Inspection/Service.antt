-- ===== src/Inspection/Service.antt =====
-- The operations of backend/internal/inspection/service.go. `fail i` says that the database fails the i-th
-- call of an operation; the EWKB and JSON codecs, `ST_MakeLine` and `ST_Length` are parameters.
use check.Common.{
  ℕ, String, Bool, true, false, not, ◌&&◌, ◌+◌, ◌-◌, ◌/◌, Option, none, some, List, [], ◌∷◌, ◌==◌,
  ltb, leb, if◌then◌else◌, any, find?, keep, length, order_by, add_row, Result, ok, err, Body,
  with_tx, update_where, coalesce,
}
use check.Inspection.Defs.{
  Bytes, Status, in_progress, finished, abandoned, InspectionErr, not_found, not_in_progress,
  ended_before_started, project_missing, task_missing, inspector_missing, fault, Row, PointRow, Db,
  Inspection, scan_inspection, StartInput, FinishInput,
}

abbrev pub is_in_progress : Status → Bool
is_in_progress in_progress = true
is_in_progress _ = false

abbrev pub live : {M : Type 0} → ℕ → Row M → Bool
live id r = r.id == id && not r.deleted

-- `geom ORDER BY seq`, of the points of one session.
abbrev pub points_of : {M : Type 0} → ℕ → Db M → List PointRow
points_of id db = order_by (λ a b. ltb a.seq b.seq) (keep (λ p. p.inspection_id == id) db.points)

abbrev pub geoms : List PointRow → List Bytes
geoms [] = []
geoms (p ∷ ps) = p.geom ∷ geoms ps

-- The foreign keys of `inspections` that an insert violates, as `fkViolation` names them.
abbrev pub fk_violation : {M : Type 0} → ℕ → Option ℕ → ℕ → Db M → Option InspectionErr
fk_violation project task inspector db =
    if not (any (λ i. i == project) db.projects) then some project_missing else elim task [
      | none ↦ if any (λ i. i == inspector) db.users then none else some inspector_missing
      | some t ↦
          if not (any (λ i. i == t) db.tasks)
          then some task_missing
          else if any (λ i. i == inspector) db.users
          then none
          else some inspector_missing
    ]

-- `json.Marshal` of the description, where there is one; `empty` is `{}`.
abbrev pub marshal_device : {J : Type 0} → (J → Option Bytes) → Bytes → Option J → Option Bytes
marshal_device marshal empty none = some empty
marshal_device marshal empty (some device) = marshal device

-- `EXTRACT(EPOCH FROM …)::bigint`, which rounds, and `GREATEST(0, …)`.
abbrev pub seconds_between : ℕ → ℕ → ℕ
seconds_between since until = (until - since + 500000) / 1000000

abbrev pub target_of : Bool → Status
target_of discard = if discard then abandoned else finished

module _ {M G J : Type 0} (zero_m : M) (line : Bytes → Option G) (json : Bytes → Option J) where
  abbrev pub scan_found : Bool → Option (Row M) → Result InspectionErr (Inspection M G J)
  scan_found true r = err fault
  scan_found false none = err not_found
  scan_found false (some r) = scan_inspection line json r

  -- `Get`
  unfoldable pub get : Bool → ℕ → Db M → Result InspectionErr (Inspection M G J)
  get fails id db = scan_found fails (find? (live id) db.inspections.rows)

  -- `getByClientUUID`
  abbrev pub get_by_client_uuid : Bool → ℕ → Db M → Result InspectionErr (Inspection M G J)
  get_by_client_uuid fails uuid db =
      scan_found fails (find? (λ r. r.client_uuid == uuid && not r.deleted) db.inspections.rows)

  abbrev pub new_row : StartInput J → Bytes → ℕ → ℕ → ℕ → Row M
  new_row input device uuid actor id = record {
    id = id;
    client_uuid = uuid;
    project_id = input.project_id;
    task_id = input.task_id;
    inspector_id = input.inspector_id;
    status = in_progress;
    started_at = input.started_at;
    ended_at = none;
    duration_seconds = 0;
    mileage_meters = zero_m;
    point_count = 0;
    route_geom = none;
    device_info = device;
    note = coalesce input.note "";
    created_by = actor;
    updated_by = actor;
    deleted = false;
  }

  -- The insert with `ON CONFLICT (client_uuid) DO NOTHING`, and the read of the row.
  abbrev pub insert_session :
      (ℕ → Bool)
      → StartInput J
      → Bytes
      → ℕ
      → ℕ
      → Db M
      → Db M × Result InspectionErr (Inspection M G J)
  insert_session fail input device uuid actor db =
      if any (λ r. r.client_uuid == uuid) db.inspections.rows
      then elim input.client_uuid [
        | none ↦ (db, err fault)
        | some given ↦ (db, get_by_client_uuid (fail 1) given db)
      ]
      else elim (fk_violation input.project_id input.task_id input.inspector_id db) [
        | some e ↦ (db, err e)
        | none ↦
            let after = record db {
              inspections = add_row (new_row input device uuid actor) db.inspections;
            } in
            (after, get_by_client_uuid (fail 1) uuid after)
      ]

  -- `Start`; `fresh` is the UUID that the database generates when none is given.
  unfoldable pub start :
      (J → Option Bytes)
      → (ℕ → Bool)
      → ℕ
      → StartInput J
      → ℕ
      → Db M
      → Db M × Result InspectionErr (Inspection M G J)
  start marshal fail fresh input actor db =
      elim (marshal_device marshal (123 ∷ 125 ∷ []) input.device_info) [
        | none ↦ (db, err fault)
        | some device ↦
            if fail 0
            then (db, err fault)
            else insert_session fail input device (coalesce input.client_uuid fresh) actor db
      ]

  module _ (make_line : List Bytes → Bytes) (length_of : Bytes → M) where
    -- `CASE WHEN count(*) >= 2 THEN ST_MakeLine(geom ORDER BY seq) END`
    abbrev pub route_of : List PointRow → Option Bytes
    route_of ps = if leb 2 (length ps) then some (make_line (geoms ps)) else none

    -- `COALESCE(ST_Length(route.line::geography), 0)`
    abbrev pub mileage_of : Option Bytes → M
    mileage_of none = zero_m
    mileage_of (some route) = length_of route

    abbrev pub close : List PointRow → Status → ℕ → Option String → ℕ → Row M → Row M
    close ps target ended note actor r = record r {
      status = target;
      ended_at = some ended;
      route_geom = route_of ps;
      point_count = length ps;
      mileage_meters = mileage_of (route_of ps);
      duration_seconds = seconds_between r.started_at ended;
      note = coalesce note r.note;
      updated_by = actor;
    }

    -- The update of the locked row and the read of what it returns.
    abbrev pub close_row :
        Bool → (Row M → Row M) → Row M → Body (Db M) InspectionErr (Inspection M G J)
    close_row fails change r db =
        if fails then err fault else elim (scan_inspection line json (change r)) [
          | err e ↦ err e
          | ok insp ↦ ok (
            insp,
            record db {
              inspections = record db.inspections {
                rows = update_where (λ x. x.id == r.id) change db.inspections.rows;
              };
            },
          )
        ]

    unfoldable pub finish_row :
        Bool → ℕ → FinishInput → ℕ → Row M → Body (Db M) InspectionErr (Inspection M G J)
    finish_row fails now input actor r db =
        let ended = coalesce input.ended_at now in
        if not (is_in_progress r.status)
        then err not_in_progress
        else if ltb ended r.started_at
        then err ended_before_started
        else close_row fails
            (close (points_of r.id db) (target_of input.discard) ended input.note actor) r db

    abbrev pub finish_body :
        (ℕ → Bool) → ℕ → ℕ → FinishInput → ℕ → Body (Db M) InspectionErr (Inspection M G J)
    finish_body fail now id input actor db =
        if fail 1 then err fault else elim (find? (live id) db.inspections.rows) [
          | none ↦ err not_found
          | some r ↦ finish_row (fail 2) now input actor r db
        ]

    -- `Finish`; `now` is the server's clock.
    unfoldable pub finish :
        (ℕ → Bool) → ℕ → ℕ → FinishInput → ℕ → Db M → Db M × Result InspectionErr (Inspection M G J)
    finish fail now id input actor db =
        with_tx (fail 0) (fail 3) fault (finish_body fail now id input actor) db
