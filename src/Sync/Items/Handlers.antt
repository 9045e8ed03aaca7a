-- ===== src/Sync/Items/Handlers.antt =====
-- The handlers of points, problems and media, and what they look up. The EWKB encoder and PostGIS's
-- validity test are the parameters `encode` and `valid_geom`.
use check.Common.{
  ℕ, Bool, not, ◌&&◌, Option, none, some, List, ◌∷◌, ◌==◌, if◌then◌else◌, find?, Result, ok, err,
  ◌>>=◌, ◌>>◌, guard, with_savepoint, Body,
}
use check.Sync.Defs.{
  Bytes, SpErr, invalid_geom, owner_not_found, other_fault, Reason, ItemResult, reject,
  accepted_or_duplicate, trajectory_reason, problem_reason, media_reason, Problem, OwnerType, Db,
  BatchState, lookup, remember,
}
use check.Sync.Items.Requests.{PointItem, ProblemItem, MediaItem}
use check.Sync.Items.Inserts.{
  Handler, visible_inspection, resolve_inspection, as_seq_conflict, insert_point, insert_problem,
  insert_media,
}

-- `resolveDictVersion`: the reported version, or the current one, or 1 without the dictionary.
unfoldable pub resolve_dict_version : Bool → Option ℕ → Db → Result SpErr ℕ
resolve_dict_version fails (some v) db = ok v
resolve_dict_version fails none db =
    if fails then err other_fault else elim db.problem_type_version [ none ↦ ok 1 | some v ↦ ok v ]

abbrev pub resolve_parent : Bool → Option ℕ → Db → BatchState → Result SpErr (Option ℕ)
resolve_parent fails none db state = ok none
resolve_parent fails (some uuid) db state = do
  id ← resolve_inspection fails uuid db state
  ok (some id)

abbrev pub problem_done :
    ℕ → BatchState → Db × Result SpErr (ℕ × Bool) → Db × BatchState × ItemResult
problem_done uuid state (db, err e) = (db, state, reject uuid (problem_reason e))
problem_done uuid state (db, ok (id, inserted)) = (
  db,
  record state { problem_ids = remember uuid id state.problem_ids },
  accepted_or_duplicate uuid id inserted,
)

abbrev pub plain_done :
    (SpErr → Reason) → ℕ → BatchState → Db × Result SpErr (ℕ × Bool) → Db × BatchState × ItemResult
plain_done reason uuid state (db, err e) = (db, state, reject uuid (reason e))
plain_done reason uuid state (db, ok (id, inserted)) =
    (db, state, accepted_or_duplicate uuid id inserted)

-- `resolveMediaOwner`: the batch map of the declared type first, else a live row of its table.
unfoldable pub resolve_media_owner : Bool → OwnerType → Option ℕ → Db → BatchState → Result SpErr ℕ
resolve_media_owner fails type none db state = err owner_not_found
resolve_media_owner fails OwnerType.inspection (some uuid) db state =
    elim (lookup uuid state.inspection_ids) [
      | some id ↦ ok id
      | none ↦
          if fails
          then err other_fault
          else elim (find? (λ r. r.client_uuid == uuid && visible_inspection r)
              db.inspections.rows) [ none ↦ err owner_not_found | some r ↦ ok r.id ]
    ]
resolve_media_owner fails OwnerType.problem (some uuid) db state =
    elim (lookup uuid state.problem_ids) [
      | some id ↦ ok id
      | none ↦
          if fails
          then err other_fault
          else elim (find? (λ (r : Problem). r.client_uuid == uuid && not r.deleted)
              db.problems.rows) [ none ↦ err owner_not_found | some r ↦ ok r.id ]
    ]
resolve_media_owner fails type (some uuid) db state = err owner_not_found

-- `geoJSONToPointEWKB` before the encoder: longitude and latitude, 0 and 0 of a shorter list.
unfoldable pub lon_lat : List ℕ → ℕ × ℕ
lon_lat (lon ∷ lat ∷ _) = (lon, lat)
lon_lat _ = (0, 0)

-- The savepoint body of `upsertMedia`.
unfoldable pub media_body : (ℕ → Bool) → MediaItem → ℕ → BatchState → Body Db SpErr (ℕ × Bool)
media_body fail item actor state db = do
  owner_id ← resolve_media_owner (fail 2) item.owner_type item.owner_client_uuid db state
  (r, t) ← insert_media fail item actor db owner_id
  ok (r, record db { media = t })

-- `upsertMedia`
unfoldable pub upsert_media : (ℕ → Bool) → MediaItem → ℕ → Handler
upsert_media fail item actor db state =
    plain_done media_reason item.client_uuid state
      (with_savepoint (fail 0) (fail 1) other_fault (media_body fail item actor state) db)

module _ (encode : ℕ → ℕ → Option Bytes) (valid_geom : Bytes → Bool) where
  -- `geoJSONToPointEWKB`
  unfoldable pub point_ewkb : List ℕ → Option Bytes
  point_ewkb coordinates = let (lon, lat) = lon_lat coordinates in encode lon lat

  -- `ValidateGeomWGS84` inside a savepoint.
  unfoldable pub check_geom : Bool → Bytes → Result SpErr (Unit {0})
  check_geom fails geom = if fails then err other_fault else guard (valid_geom geom) invalid_geom

  -- The savepoint body of `upsertTrajectoryPoint`.
  unfoldable pub point_body : (ℕ → Bool) → PointItem → Bytes → BatchState → Body Db SpErr (ℕ × Bool)
  point_body fail item geom state db = do
    inspection_id ← resolve_inspection (fail 2) item.inspection_client_uuid db state
    check_geom (fail 3) geom
    (r, t) ← as_seq_conflict (insert_point fail item geom db inspection_id)
    ok (r, record db { points = t })

  -- `upsertTrajectoryPoint`
  unfoldable pub upsert_trajectory_point : (ℕ → Bool) → PointItem → Handler
  upsert_trajectory_point fail item db state = elim (point_ewkb item.coordinates) [
    | none ↦ (db, state, reject item.client_uuid Reason.invalid_geom)
    | some geom ↦
        plain_done trajectory_reason item.client_uuid state
          (with_savepoint (fail 0) (fail 1) other_fault (point_body fail item geom state) db)
  ]

  -- The savepoint body of `upsertProblem`.
  unfoldable pub problem_body :
      (ℕ → Bool) → ProblemItem → ℕ → Bytes → BatchState → Body Db SpErr (ℕ × Bool)
  problem_body fail item actor geom state db = do
    inspection_id ← resolve_parent (fail 2) item.inspection_client_uuid db state
    version ← resolve_dict_version (fail 3) item.dict_version_used db
    check_geom (fail 4) geom
    (r, t) ← insert_problem fail item actor geom db inspection_id version
    ok (r, record db { problems = t })

  -- `upsertProblem`
  unfoldable pub upsert_problem : (ℕ → Bool) → ProblemItem → ℕ → Handler
  upsert_problem fail item actor db state = elim (point_ewkb item.coordinates) [
    | none ↦ (db, state, reject item.client_uuid Reason.invalid_geom)
    | some geom ↦
        problem_done item.client_uuid state (
          with_savepoint (fail 0) (fail 1) other_fault (problem_body fail item actor geom state) db)
  ]
