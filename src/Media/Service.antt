-- ===== src/Media/Service.antt =====
-- `IssueUploadCredentials`, `Confirm` and `Get` of backend/internal/media/service.go. The STS
-- issuer, the answer of `HeadObject` and the signer are the parameters `issue`, `head` and `sign`;
-- `now` is the instant of the call, and `fail i` says that the database fails its i-th call.
use check.Common.{
  eq_ℤ, ℕ, suc, String, Bool, true, false, not, ◌&&◌, ◌||◌, Option, none, some, List, ◌==◌, str_eq,
  ℤ, pos, ltb_ℤ, if◌then◌else◌, any, find?, Result, ok, err, ◌>>=◌, ◌>>◌, guard, coalesce?,
  update_where, insert_row, Body, with_tx,
}
use check.Media.Keys.{
  Bytes, OwnerType, Tier, bytes_eq, is_nil, prefix_of, build_original_key, etags_match,
}
use check.Media.Defs.{
  CaptureState, uploading, confirmed, can_transition, Asset, World, MediaErr, not_found,
  tier_not_original, verify_failed, invalid_owner_type, db_fault, store_fault, sts_fault,
  MediaConfig, bucket_for_tier, live, live_uuid,
}

-- `CredentialsInput`; an owner type outside the enumeration is none.
pub record CredentialsInput : Type 0 where
  pub owner_type : Option OwnerType
  pub owner_id : ℤ
  pub tier : Tier
  pub content_type : String
  pub byte_size : ℤ
  pub client_uuid : ℕ

pub record UploadCredentials : Type 0 where
  pub bucket : String
  pub region : String
  pub key : Bytes
  pub prefix : Bytes
  pub credentials : ℕ

-- `nullableSize`
abbrev pub nullable_size : ℤ → Option ℤ
nullable_size n = if ltb_ℤ (pos 0) n then some n else none

abbrev pub is_original : Tier → Bool
is_original Tier.original = true
is_original _ = false

abbrev pub is_confirmed : CaptureState → Bool
is_confirmed confirmed = true
is_confirmed _ = false

-- `uq_media_bucket_key`
abbrev pub key_held : String → Bytes → List Asset → Bool
key_held bucket key = any (λ a. str_eq a.cos_bucket bucket && bytes_eq a.cos_key key)

abbrev pub uploading_row :
    MediaConfig → CredentialsInput → OwnerType → String → Bytes → String → ℕ → ℕ → ℕ → Asset
uploading_row cfg in' owner_type bucket key content_type actor now id = record {
  id = id;
  client_uuid = in'.client_uuid;
  owner_type = owner_type;
  owner_id = in'.owner_id;
  tier = Tier.original;
  cos_bucket = bucket;
  cos_key = key;
  cos_region = cfg.region;
  content_type = content_type;
  byte_size = nullable_size in'.byte_size;
  width = none;
  height = none;
  etag = none;
  capture_state = uploading;
  verified_at = none;
  media_group = none;
  reaped_at = none;
  created_by = some actor;
  updated_by = some actor;
  created_at = now;
  deleted = false;
}

abbrev pub add_asset : (ℕ → Asset) → World → World
add_asset row w = record w { assets = insert_row (row w.next_id) w.assets; next_id = suc w.next_id }

module _ (uuid_text : ℕ → Bytes) (fail : ℕ → Bool) (cfg : MediaConfig) where
  -- `upsertUploadingRow`: a conflict on the UUID hands back the key of the existing live row; a
  -- conflict on (bucket, key) is an error of the database.
  unfoldable pub upsert_uploading_row :
      CredentialsInput → OwnerType → String → String → ℕ → ℕ → World → World × Result MediaErr Bytes
  upsert_uploading_row in' owner_type bucket content_type actor now w =
      let key = build_original_key uuid_text owner_type in'.owner_id in'.client_uuid in
      if fail 0
      then (w, err db_fault)
      else if any (λ a. a.client_uuid == in'.client_uuid) w.assets
      then (if fail 1
          then (w, err db_fault)
          else elim (find? (live_uuid in'.client_uuid) w.assets) [
            | none ↦ (w, err not_found)
            | some a ↦ (w, ok a.cos_key)
          ])
      else if key_held bucket key w.assets
      then (w, err db_fault)
      else (
        add_asset (uploading_row cfg in' owner_type bucket key content_type actor now) w,
        ok key,
      )

  abbrev pub grant :
      (String → String → Bytes → Option ℕ)
      → String
      → World × Result MediaErr Bytes
      → World × Result MediaErr UploadCredentials
  grant issue bucket (w, err e) = (w, err e)
  grant issue bucket (w, ok key) = elim (issue bucket cfg.region (prefix_of key)) [
    | none ↦ (w, err sts_fault)
    | some c ↦ (
      w,
      ok (record {
        bucket = bucket;
        region = cfg.region;
        key = key;
        prefix = prefix_of key;
        credentials = c;
      }),
    )
  ]

  -- `IssueUploadCredentials`
  unfoldable pub issue_upload_credentials :
      (String → String → Bytes → Option ℕ)
      → CredentialsInput
      → ℕ
      → ℕ
      → World
      → World × Result MediaErr UploadCredentials
  unfolding upsert_uploading_row
  issue_upload_credentials issue in' actor now w =
      if not (is_original in'.tier) then (w, err tier_not_original) else elim in'.owner_type [
        | none ↦ (w, err invalid_owner_type)
        | some owner_type ↦
            let bucket = bucket_for_tier cfg Tier.original in
            let content_type =
              if str_eq in'.content_type "" then "image/jpeg" else in'.content_type in
            grant issue bucket (upsert_uploading_row in' owner_type bucket content_type actor now w)
      ]

-- `ConfirmInput`
pub record ConfirmInput : Type 0 where
  pub client_uuid : ℕ
  pub key : Bytes
  pub etag : Bytes
  pub byte_size : ℤ
  pub width : Option ℤ
  pub height : Option ℤ

-- The answer of `HeadObject`.
pub data HeadAnswer : Type 0 where
  missing failed : HeadAnswer
  present : (etag : Bytes) (size : ℤ) → HeadAnswer

abbrev pub confirm_row : ConfirmInput → Bytes → ℕ → ℕ → Asset → Asset
confirm_row in' etag actor now a = record a {
  capture_state = confirmed;
  verified_at = some now;
  etag = some etag;
  byte_size = some in'.byte_size;
  width = coalesce? in'.width a.width;
  height = coalesce? in'.height a.height;
  updated_by = some actor;
}

abbrev pub has_uuid : ℕ → Asset → Bool
has_uuid uuid a = a.client_uuid == uuid

module _ (lower : Bytes → Bytes) (head : String → Bytes → HeadAnswer) (fail : ℕ → Bool) where
  -- `HeadObject` and the comparison of its answer with the client's report.
  unfoldable pub verify : ConfirmInput → Asset → Result MediaErr Bytes
  verify in' a =
      if not (is_nil in'.key) && not (bytes_eq in'.key a.cos_key)
      then err verify_failed
      else elim (head a.cos_bucket a.cos_key) [
        | missing ↦ err verify_failed
        | failed ↦ err store_fault
        | present etag size ↦
            if not (etags_match lower etag in'.etag) || not (eq_ℤ size in'.byte_size)
            then err verify_failed
            else ok etag
      ]

  -- The update of the row, by its UUID alone.
  unfoldable pub mark_confirmed : ConfirmInput → Bytes → ℕ → ℕ → Body World MediaErr (Asset × Bool)
  mark_confirmed in' etag actor now w =
      if fail 3 then err db_fault else elim (find? (has_uuid in'.client_uuid) w.assets) [
        | none ↦ err db_fault
        | some a ↦ ok (
          (confirm_row in' etag actor now a, is_original a.tier),
          record w {
            assets =
                update_where (has_uuid in'.client_uuid) (confirm_row in' etag actor now) w.assets;
          },
        )
      ]

  -- The transaction body of `Confirm`.
  unfoldable pub confirm_body : ConfirmInput → ℕ → ℕ → Body World MediaErr (Asset × Bool)
  confirm_body in' actor now w =
      if fail 1 then err db_fault else elim (find? (live_uuid in'.client_uuid) w.assets) [
        | none ↦ err not_found
        | some a ↦
            if is_confirmed a.capture_state
            then (if fail 2 then err db_fault else ok ((a, false), w))
            else (do
              etag ← verify in' a
              guard (can_transition a.capture_state confirmed) verify_failed
              mark_confirmed in' etag actor now w)
      ]

  -- `Confirm`
  unfoldable pub confirm : ConfirmInput → ℕ → ℕ → World → World × Result MediaErr (Asset × Bool)
  confirm in' actor now w = with_tx (fail 0) (fail 4) db_fault (confirm_body in' actor now) w

-- `Get`
unfoldable pub get :
    (String → Bytes → Option String) → Bool → ℕ → World → Result MediaErr (Asset × String)
get sign fails id w = if fails then err db_fault else elim (find? (live id) w.assets) [
  | none ↦ err not_found
  | some a ↦ elim (sign a.cos_bucket a.cos_key) [ none ↦ err store_fault | some url ↦ ok (a, url) ]
]
