-- ===== src/Media/Defs.antt =====
-- The rows of `media_assets` and the capture states (backend/internal/media/state.go). The column
-- `meta` is kept as the instant at which the reaper flagged the row.
use check.Common.{
  ℕ, String, Bool, false, not, ◌&&◌, ◌||◌, Option, List, ◌*◌, ◌==◌, ℤ, pos, negsuc, ltb_ℤ,
  if◌then◌else◌,
}
use check.Media.Keys.{Bytes, OwnerType, Tier}

pub data CaptureState : Type 0 where
  captured_raw stitched queued uploading uploaded confirmed : CaptureState
  unknown : String → CaptureState

-- `captureRank`, with its map `captureOrder`
abbrev pub capture_rank : CaptureState → ℤ
capture_rank captured_raw = pos 0
capture_rank stitched = pos 1
capture_rank queued = pos 2
capture_rank uploading = pos 3
capture_rank uploaded = pos 4
capture_rank confirmed = pos 5
capture_rank (unknown s) = negsuc 0

-- `canTransition`
unfoldable pub can_transition : CaptureState → CaptureState → Bool
can_transition source target =
    if ltb_ℤ (capture_rank source) (pos 0) || ltb_ℤ (capture_rank target) (pos 0)
    then false
    else not (ltb_ℤ (capture_rank target) (capture_rank source))

pub record Asset : Type 0 where
  pub id : ℕ
  pub client_uuid : ℕ
  pub owner_type : OwnerType
  pub owner_id : ℤ
  pub tier : Tier
  pub cos_bucket : String
  pub cos_key : Bytes
  pub cos_region : String
  pub content_type : String
  pub byte_size : Option ℤ
  pub width : Option ℤ
  pub height : Option ℤ
  pub etag : Option Bytes
  pub capture_state : CaptureState
  pub verified_at : Option ℕ
  pub media_group : Option ℕ
  pub reaped_at : Option ℕ
  pub created_by : Option ℕ
  pub updated_by : Option ℕ
  pub created_at : ℕ
  pub deleted : Bool

pub record StoredObject : Type 0 where
  pub bucket : String
  pub key : Bytes
  pub content_type : String
  pub content : Bytes

-- The table, its sequence, and what the backend has put into the object store.
pub record World : Type 0 where
  pub assets : List Asset
  pub next_id : ℕ
  pub put_objects : List StoredObject

pub data MediaErr : Type 0 where
  not_found tier_not_original verify_failed not_confirmed not_original invalid_owner_type : MediaErr
  db_fault store_fault sts_fault : MediaErr

-- `Config`
pub record MediaConfig : Type 0 where
  pub bucket_original : String
  pub bucket_web : String
  pub bucket_thumb : String
  pub region : String
  pub sts_ttl : ℤ
  pub signed_url_ttl : ℤ
  pub uploading_ttl : ℤ

abbrev pub seconds_of_minutes : ℕ → ℤ
seconds_of_minutes m = pos (m * 60)

abbrev pub positive_or : ℤ → ℤ → ℤ
positive_or d n = if ltb_ℤ (pos 0) n then n else d

-- `withDefaults`, in seconds
unfoldable pub with_defaults : MediaConfig → MediaConfig
with_defaults c = record c {
  sts_ttl = positive_or (seconds_of_minutes 15) c.sts_ttl;
  signed_url_ttl = positive_or (seconds_of_minutes 60) c.signed_url_ttl;
  uploading_ttl = positive_or (seconds_of_minutes 1440) c.uploading_ttl;
}

-- `bucketForTier`
unfoldable pub bucket_for_tier : MediaConfig → Tier → String
bucket_for_tier c Tier.web = c.bucket_web
bucket_for_tier c Tier.thumb = c.bucket_thumb
bucket_for_tier c Tier.original = c.bucket_original

abbrev pub live : ℕ → Asset → Bool
live id a = a.id == id && not a.deleted

abbrev pub live_uuid : ℕ → Asset → Bool
live_uuid uuid a = a.client_uuid == uuid && not a.deleted
