-- ===== src/Tests/SyncTests.antt =====
-- The ingest's theorems at a batch of four items.
use check.Common.{
  ℕ, ◌+◌, ◌≡◌, refl, Bool, true, false, Option, none, some, [], ◌∷◌, ok, ◌≢◌, length,
  with_savepoint,
}
use mathlib.Core.List.{map}
use check.Sync.Defs.{
  BatchState, Bytes, duplicate, rejected, ItemResult, OwnerType, Table, Db, upsert_returning_id,
}
use check.Sync.Items.{
  InspectionItem, PointItem, ProblemItem, MediaItem, upsert_inspection, upsert_trajectory_point,
  upsert_problem, upsert_media, inspection_body,
}
use check.Sync.Batch.{BatchRequest, BatchResult, process, run_batch, bucketize, empty_state}
use check.Sync.Sound.{IsSound}
use check.Sync.Keeps.{process-IsSound}
use check.Sync.Results.{process-results, request_uuids, members}
use check.Sync.Isolation.{rejected-Isolated, Isolated}
use check.Sync.Replay.{upsert_inspection-again, no_failure}
use check.Sync.Again.{second_delivery-Repeats, Repeats}

-- An encoder that keeps the two numbers.
abbrev pair_encode : ℕ → ℕ → Option Bytes
pair_encode lon lat = some (lon ∷ lat ∷ [])

abbrev any_geom : Bytes → Bool
any_geom b = true

abbrev no_call_fails : ℕ → Bool
no_call_fails _ = false

abbrev no_item_fails : ℕ → ℕ → ℕ → Bool
no_item_fails _ _ _ = false

abbrev no_rows : {R : Type 0} → Table R
no_rows = record { rows = []; next = 1 }

abbrev start_db : Db
start_db = record {
  inspections = no_rows;
  points = no_rows;
  problems = no_rows;
  media = no_rows;
  project_ids = 1 ∷ [];
  task_ids = [];
  user_ids = 7 ∷ [];
  dict_item_ids = [];
  problem_type_version = none;
}

start_db-IsSound : IsSound start_db
start_db-IsSound = record {
  inspections = tt;
  points = tt;
  seqs = tt;
  problems = tt;
  media = tt;
  keys = tt;
  parents = tt;
}

abbrev walk : InspectionItem
walk = record {
  client_uuid = 100;
  project_id = 1;
  task_id = none;
  inspector_id = none;
  status = none;
  started_at = 10;
  ended_at = none;
  device_info = none;
  note = none;
}

abbrev step_point : PointItem
step_point = record {
  client_uuid = 101;
  inspection_client_uuid = 100;
  seq = 0;
  coordinates = 113 ∷ 23 ∷ [];
  recorded_at = 11;
  samples = none ∷ none ∷ none ∷ none ∷ [];
}

abbrev crack : ProblemItem
crack = record {
  client_uuid = 102;
  project_id = 1;
  inspection_client_uuid = some 100;
  inspector_id = none;
  coordinates = 113 ∷ 23 ∷ [];
  type_item_id = none;
  status_item_id = none;
  category_item_id = none;
  dict_version_used = none;
  title = some "crack";
  description = none;
  note = none;
  captured_at = 12;
}

abbrev photo : MediaItem
photo = record {
  client_uuid = 103;
  owner_type = OwnerType.problem;
  owner_client_uuid = some 102;
  tier = "original";
  cos_bucket = "b";
  cos_key = "k";
  cos_region = none;
  content_type = none;
  byte_size = none;
  width = none;
  height = none;
  etag = none;
  capture_state = "UPLOADED";
  media_group = none;
}

abbrev small_batch : BatchRequest
small_batch = record {
  inspections = walk ∷ [];
  trajectory_points = step_point ∷ [];
  problems = crack ∷ [];
  media = photo ∷ [];
}

process-IsSound_example :
    IsSound (process pair_encode any_geom false false no_item_fails small_batch 7 start_db).0
process-IsSound_example =
    process-IsSound pair_encode any_geom false false no_item_fails small_batch 7 start_db
      start_db-IsSound

abbrev small_result : BatchResult
small_result = bucketize (run_batch pair_encode any_geom no_item_fails small_batch 7 start_db).1

small_batch-ok :
    (process pair_encode any_geom false false no_item_fails small_batch 7 start_db).1
    ≡ ok small_result
unfolding process
small_batch-ok = refl

process-results_example :
    (map ItemResult.client_uuid small_result.results ≡ request_uuids small_batch)
    × (length (members small_result.accepted_items)
          + length (members small_result.rejected_items)
          + length (members small_result.duplicate_items)
        ≡ length small_result.results)
process-results_example =
    process-results pair_encode any_geom false false no_item_fails small_batch 7 start_db
      small_result small_batch-ok

rejected-Isolated_example :
    Isolated start_db empty_state (upsert_inspection no_call_fails walk 7 start_db empty_state)
    × Isolated start_db empty_state
        (upsert_trajectory_point pair_encode any_geom no_call_fails step_point start_db empty_state)
    × Isolated start_db empty_state
        (upsert_problem pair_encode any_geom no_call_fails crack 7 start_db empty_state)
    × Isolated start_db empty_state (upsert_media no_call_fails photo 7 start_db empty_state)
rejected-Isolated_example =
    rejected-Isolated pair_encode any_geom no_call_fails 7 start_db empty_state walk step_point
      crack photo

walk-accepted : (upsert_inspection no_call_fails walk 7 start_db empty_state).2.status ≢ rejected
unfolding upsert_inspection with_savepoint inspection_body upsert_returning_id
walk-accepted h = cc

upsert_inspection-again_example :
    let first = upsert_inspection no_call_fails walk 7 start_db empty_state in
    let again = upsert_inspection (λ _. false) walk 8 first.0 empty_state in
    (again.0 ≡ first.0) × (again.2.status ≡ duplicate) × (again.2.server_id ≡ first.2.server_id)
upsert_inspection-again_example =
    upsert_inspection-again no_call_fails walk 7 8 start_db empty_state empty_state walk-accepted

-- The batch's maps after its inspection and its problem.
abbrev mid_state : BatchState
mid_state = record { inspection_ids = (100, 1) ∷ []; problem_ids = (102, 1) ∷ [] }

abbrev walked_db : Db
walked_db = (upsert_inspection no_call_fails walk 7 start_db empty_state).0

second_delivery-Repeats_example :
    Repeats
      (upsert_trajectory_point pair_encode any_geom no_call_fails step_point)
      (upsert_trajectory_point pair_encode any_geom no_failure step_point)
      walked_db
      mid_state
    × Repeats
        (upsert_problem pair_encode any_geom no_call_fails crack 7)
        (upsert_problem pair_encode any_geom no_failure crack 7)
        walked_db
        mid_state
    × Repeats
        (upsert_media no_call_fails photo 7)
        (upsert_media no_failure photo 7)
        walked_db
        mid_state
second_delivery-Repeats_example =
    second_delivery-Repeats pair_encode any_geom no_call_fails 7 walked_db mid_state step_point
      crack photo
