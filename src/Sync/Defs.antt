-- ===== src/Sync/Defs.antt =====
-- The batch ingest of offline items (backend/internal/sync): its rows, requests, results and the
-- idempotent insert. UUIDs, instants and the bits of a float are numbers. A row keeps the columns
-- that the ingest writes; `deleted` is `deleted_at IS NOT NULL`. Whether the database fails a call
-- unexpectedly is an input.
use check.Common.{
  ℕ, String, Bool, true, false, not, ◌&&◌, ◌||◌, Option, none, some, List, [], ◌∷◌, ◌==◌,
  if◌then◌else◌, any, find?, Result, ok, err,
}
pub use check.Common.{Table, add_row}

abbrev pub Bytes : Type 0
Bytes = List ℕ

-- What a savepoint body can return: the package's sentinels, and the database's own errors.
pub data SpErr : Type 0 where
  inspection_not_found invalid_geom owner_not_found seq_conflict : SpErr
  unique_violation fk_violation other_fault : SpErr

pub data Reason : Type 0 where
  inspection_not_found seq_conflict owner_not_found invalid_geom fk_violation internal : Reason

pub data Status : Type 0 where
  accepted duplicate rejected : Status

pub record ItemResult : Type 0 where
  pub client_uuid : ℕ
  pub status : Status
  pub server_id : Option ℕ
  pub error : Option Reason

-- `reject`
abbrev pub reject : ℕ → Reason → ItemResult
reject uuid reason = record {
  client_uuid = uuid;
  status = rejected;
  server_id = none;
  error = some reason;
}

-- `acceptedOrDuplicate`
abbrev pub accepted_or_duplicate : ℕ → ℕ → Bool → ItemResult
accepted_or_duplicate uuid id inserted = record {
  client_uuid = uuid;
  status = if inserted then accepted else duplicate;
  server_id = some id;
  error = none;
}

-- `rejectInspectionErr`
abbrev pub inspection_reason : SpErr → Reason
inspection_reason SpErr.fk_violation = Reason.fk_violation
inspection_reason _ = internal

-- `rejectTrajectoryErr`
abbrev pub trajectory_reason : SpErr → Reason
trajectory_reason SpErr.inspection_not_found = Reason.inspection_not_found
trajectory_reason SpErr.seq_conflict = Reason.seq_conflict
trajectory_reason SpErr.invalid_geom = Reason.invalid_geom
trajectory_reason SpErr.fk_violation = Reason.fk_violation
trajectory_reason _ = internal

-- `rejectProblemErr`
abbrev pub problem_reason : SpErr → Reason
problem_reason SpErr.inspection_not_found = Reason.inspection_not_found
problem_reason SpErr.invalid_geom = Reason.invalid_geom
problem_reason SpErr.fk_violation = Reason.fk_violation
problem_reason _ = internal

-- `rejectMediaErr`
abbrev pub media_reason : SpErr → Reason
media_reason SpErr.owner_not_found = Reason.owner_not_found
media_reason SpErr.fk_violation = Reason.fk_violation
media_reason _ = internal

module _ {R : Type 0} (id_of uuid_of : R → ℕ) (visible : R → Bool) where
  -- `upsertReturningID`: `INSERT … ON CONFLICT (client_uuid) DO NOTHING RETURNING id`, and the
  -- select of the existing row where the insert was suppressed. A failed cast or check constraint
  -- (`checked` is false) comes before the conflict; another constraint that refuses comes after.
  unfoldable pub upsert_returning_id :
      Bool
      → Bool
      → Bool
      → Option SpErr
      → ℕ
      → (ℕ → R)
      → Table R
      → Result SpErr ((ℕ × Bool) × Table R)
  upsert_returning_id insert_fails select_fails checked refusal uuid row t =
      if insert_fails || not checked
      then err other_fault
      else if any (λ r. uuid_of r == uuid) t.rows
      then (if select_fails
          then err other_fault
          else elim (find? (λ r. uuid_of r == uuid && visible r) t.rows) [
            | none ↦ err other_fault
            | some r ↦ ok ((id_of r, false), t)
          ])
      else elim refusal [ some e ↦ err e | none ↦ ok ((t.next, true), add_row row t) ]

pub record Inspection : Type 0 where
  pub id : ℕ
  pub client_uuid : ℕ
  pub project_id : ℕ
  pub task_id : Option ℕ
  pub inspector_id : ℕ
  pub status : String
  pub started_at : ℕ
  pub ended_at : Option ℕ
  pub device_info : String
  pub note : String
  pub created_by : ℕ
  pub deleted : Bool

pub record Point : Type 0 where
  pub id : ℕ
  pub client_uuid : ℕ
  pub inspection_id : ℕ
  pub seq : ℕ
  pub geom : Bytes
  pub recorded_at : ℕ
  pub samples : List (Option ℕ)  -- speed, bearing, altitude, accuracy

pub record Problem : Type 0 where
  pub id : ℕ
  pub client_uuid : ℕ
  pub project_id : ℕ
  pub inspection_id : Option ℕ
  pub inspector_id : ℕ
  pub geom : Bytes
  pub type_item_id : Option ℕ
  pub status_item_id : Option ℕ
  pub category_item_id : Option ℕ
  pub dict_version_used : ℕ
  pub title : String
  pub description : String
  pub note : String
  pub captured_at : ℕ
  pub created_by : ℕ
  pub deleted : Bool

pub data OwnerType : Type 0 where
  problem inspection project user : OwnerType

pub record Media : Type 0 where
  pub id : ℕ
  pub client_uuid : ℕ
  pub owner_type : OwnerType
  pub owner_id : ℕ
  pub tier : String
  pub cos_bucket : String
  pub cos_key : String
  pub cos_region : String
  pub content_type : String
  pub byte_size : Option ℕ
  pub width : Option ℕ
  pub height : Option ℕ
  pub etag : Option String
  pub capture_state : String
  pub media_group : Option ℕ
  pub created_by : ℕ
  pub deleted : Bool

-- The tables that the ingest writes, and what its foreign keys and lookups read.
pub record Db : Type 0 where
  pub inspections : Table Inspection
  pub points : Table Point
  pub problems : Table Problem
  pub media : Table Media
  pub project_ids : List ℕ
  pub task_ids : List ℕ
  pub user_ids : List ℕ
  pub dict_item_ids : List ℕ
  pub problem_type_version : Option ℕ

-- `batchState`: client UUIDs of this batch with their server ids.
pub record BatchState : Type 0 where
  pub inspection_ids : List (ℕ × ℕ)
  pub problem_ids : List (ℕ × ℕ)

-- A read and a write of a Go map.
abbrev pub lookup : ℕ → List (ℕ × ℕ) → Option ℕ
lookup k [] = none
lookup k ((j, v) ∷ m) = let rest = lookup k m in if j == k then some v else rest

abbrev pub remember : ℕ → ℕ → List (ℕ × ℕ) → List (ℕ × ℕ)
remember k v m = (k, v) ∷ m
