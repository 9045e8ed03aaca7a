-- ===== src/Sync/Items/Inserts.antt =====
-- The inserts of the four handlers and the handler of inspections. `fail i` says that the database
-- fails the i-th call of an item; the savepoint's begin and release are the calls 0 and 1.
use check.Common.{
  ℕ, String, Bool, true, false, not, ◌&&◌, Option, none, some, List, ◌==◌, str_eq, if◌then◌else◌,
  any, find?, Result, ok, err, ◌>>=◌, with_savepoint, Body,
}
use check.Sync.Defs.{
  Bytes, SpErr, inspection_not_found, seq_conflict, unique_violation, fk_violation, other_fault,
  ItemResult, reject, accepted_or_duplicate, inspection_reason, Table, upsert_returning_id,
  Inspection, Point, Problem, Media, Db, BatchState, lookup, remember,
}
use check.Sync.Items.Requests.{
  InspectionItem, PointItem, ProblemItem, MediaItem, nonzero_or, nonempty_or, deref_str, text_or,
  contains, contains?, one_of, inspection_statuses, media_tiers, capture_states, ends_after,
  refusal,
}

-- One handler: its result, its effect on the tables and on the maps of the batch.
abbrev pub Handler : Type 0
Handler = Db → BatchState → Db × BatchState × ItemResult

abbrev pub visible_inspection : Inspection → Bool
visible_inspection r = not r.deleted

abbrev pub inspection_row : InspectionItem → ℕ → ℕ → Inspection
inspection_row item actor id = record {
  id = id;
  client_uuid = item.client_uuid;
  project_id = item.project_id;
  task_id = item.task_id;
  inspector_id = nonzero_or actor item.inspector_id;
  status = nonempty_or "IN_PROGRESS" item.status;
  started_at = item.started_at;
  ended_at = item.ended_at;
  device_info = text_or "{}" item.device_info;
  note = deref_str item.note;
  created_by = actor;
  deleted = false;
}

abbrev pub inspection_refusal : Db → InspectionItem → ℕ → Option SpErr
inspection_refusal db item actor =
    refusal
      (contains db.project_ids item.project_id
        && contains? db.task_ids item.task_id
        && contains db.user_ids (nonzero_or actor item.inspector_id))
      fk_violation

abbrev pub inspection_checked : InspectionItem → Bool
inspection_checked item =
    one_of inspection_statuses (nonempty_or "IN_PROGRESS" item.status)
    && ends_after item.started_at item.ended_at

-- The insert of an inspection; its select does not look at `deleted_at`.
abbrev pub insert_inspection :
    (ℕ → Bool) → InspectionItem → ℕ → Db → Result SpErr ((ℕ × Bool) × Table Inspection)
insert_inspection fail item actor db =
    upsert_returning_id Inspection.id Inspection.client_uuid (λ _. true) (fail 2) (fail 3)
      (inspection_checked item) (inspection_refusal db item actor) item.client_uuid
      (inspection_row item actor) db.inspections

-- The savepoint body of `upsertInspection`.
unfoldable pub inspection_body : (ℕ → Bool) → InspectionItem → ℕ → Body Db SpErr (ℕ × Bool)
inspection_body fail item actor db = do
  (r, t) ← insert_inspection fail item actor db
  ok (r, record db { inspections = t })

abbrev pub inspection_done :
    ℕ → BatchState → Db × Result SpErr (ℕ × Bool) → Db × BatchState × ItemResult
inspection_done uuid state (db, err e) = (db, state, reject uuid (inspection_reason e))
inspection_done uuid state (db, ok (id, inserted)) = (
  db,
  record state { inspection_ids = remember uuid id state.inspection_ids },
  accepted_or_duplicate uuid id inserted,
)

-- `upsertInspection`
unfoldable pub upsert_inspection : (ℕ → Bool) → InspectionItem → ℕ → Handler
upsert_inspection fail item actor db state =
    inspection_done item.client_uuid state
      (with_savepoint (fail 0) (fail 1) other_fault (inspection_body fail item actor) db)

-- The batch map first, else a live inspection of the table.
unfoldable pub resolve_inspection : Bool → ℕ → Db → BatchState → Result SpErr ℕ
resolve_inspection fails uuid db state = elim (lookup uuid state.inspection_ids) [
  | some id ↦ ok id
  | none ↦
      if fails
      then err other_fault
      else elim (find? (λ r. r.client_uuid == uuid && visible_inspection r) db.inspections.rows) [
        | none ↦ err inspection_not_found
        | some r ↦ ok r.id
      ]
]

abbrev pub point_row : PointItem → ℕ → Bytes → ℕ → Point
point_row item inspection_id geom id = record {
  id = id;
  client_uuid = item.client_uuid;
  inspection_id = inspection_id;
  seq = item.seq;
  geom = geom;
  recorded_at = item.recorded_at;
  samples = item.samples;
}

abbrev pub inspection_exists : Db → ℕ → Bool
inspection_exists db id = any (λ (r : Inspection). r.id == id) db.inspections.rows

-- `uq_traj_inspection_seq`
abbrev pub seq_taken : ℕ → ℕ → List Point → Bool
seq_taken inspection_id seq = any (λ p. p.inspection_id == inspection_id && p.seq == seq)

-- The unique index is checked before the foreign key.
abbrev pub point_refusal : Db → PointItem → ℕ → Option SpErr
point_refusal db item inspection_id =
    if seq_taken inspection_id item.seq db.points.rows
    then some unique_violation
    else refusal (inspection_exists db inspection_id) fk_violation

-- A unique violation that reaches the handler is the index on (inspection_id, seq).
abbrev pub as_seq_conflict : {A : Type 0} → Result SpErr A → Result SpErr A
as_seq_conflict (ok a) = ok a
as_seq_conflict (err unique_violation) = err seq_conflict
as_seq_conflict (err e) = err e

abbrev pub insert_point :
    (ℕ → Bool) → PointItem → Bytes → Db → ℕ → Result SpErr ((ℕ × Bool) × Table Point)
insert_point fail item geom db inspection_id =
    upsert_returning_id Point.id Point.client_uuid (λ _. true) (fail 4) (fail 5) true
      (point_refusal db item inspection_id) item.client_uuid (point_row item inspection_id geom)
      db.points

abbrev pub problem_row : ProblemItem → ℕ → Option ℕ → Bytes → ℕ → ℕ → Problem
problem_row item actor inspection_id geom version id = record {
  id = id;
  client_uuid = item.client_uuid;
  project_id = item.project_id;
  inspection_id = inspection_id;
  inspector_id = nonzero_or actor item.inspector_id;
  geom = geom;
  type_item_id = item.type_item_id;
  status_item_id = item.status_item_id;
  category_item_id = item.category_item_id;
  dict_version_used = version;
  title = deref_str item.title;
  description = deref_str item.description;
  note = deref_str item.note;
  captured_at = item.captured_at;
  created_by = actor;
  deleted = false;
}

abbrev pub inspection_exists? : Db → Option ℕ → Bool
inspection_exists? db none = true
inspection_exists? db (some id) = inspection_exists db id

-- A retired dictionary item keeps its row, so its id is among `dict_item_ids`.
abbrev pub problem_refusal : Db → ProblemItem → ℕ → Option ℕ → Option SpErr
problem_refusal db item actor inspection_id =
    refusal
      (contains db.project_ids item.project_id
        && inspection_exists? db inspection_id
        && contains db.user_ids (nonzero_or actor item.inspector_id)
        && contains? db.dict_item_ids item.type_item_id
        && contains? db.dict_item_ids item.status_item_id
        && contains? db.dict_item_ids item.category_item_id)
      fk_violation

abbrev pub insert_problem :
    (ℕ → Bool)
    → ProblemItem
    → ℕ
    → Bytes
    → Db
    → Option ℕ
    → ℕ
    → Result SpErr ((ℕ × Bool) × Table Problem)
insert_problem fail item actor geom db inspection_id version =
    upsert_returning_id Problem.id Problem.client_uuid (λ p. not p.deleted) (fail 5) (fail 6) true
      (problem_refusal db item actor inspection_id) item.client_uuid
      (problem_row item actor inspection_id geom version) db.problems

abbrev pub media_row : MediaItem → ℕ → ℕ → ℕ → Media
media_row item actor owner_id id = record {
  id = id;
  client_uuid = item.client_uuid;
  owner_type = item.owner_type;
  owner_id = owner_id;
  tier = item.tier;
  cos_bucket = item.cos_bucket;
  cos_key = item.cos_key;
  cos_region = nonempty_or "ap-guangzhou" item.cos_region;
  content_type = nonempty_or "image/jpeg" item.content_type;
  byte_size = item.byte_size;
  width = item.width;
  height = item.height;
  etag = item.etag;
  capture_state = item.capture_state;
  media_group = item.media_group;
  created_by = actor;
  deleted = false;
}

-- `uq_media_bucket_key`
abbrev pub key_taken : String → String → List Media → Bool
key_taken bucket key = any (λ m. str_eq m.cos_bucket bucket && str_eq m.cos_key key)

abbrev pub insert_media :
    (ℕ → Bool) → MediaItem → ℕ → Db → ℕ → Result SpErr ((ℕ × Bool) × Table Media)
insert_media fail item actor db owner_id =
    upsert_returning_id Media.id Media.client_uuid (λ m. not m.deleted) (fail 3) (fail 4)
      (one_of media_tiers item.tier && one_of capture_states item.capture_state)
      (refusal (not (key_taken item.cos_bucket item.cos_key db.media.rows)) unique_violation)
      item.client_uuid (media_row item actor owner_id) db.media
