-- ===== src/Media/Worker.antt =====
-- The derivation of the web and thumb tiers (backend/internal/media/worker.go) and the reaper
-- (reaper.go). The image code, `GetObject`, a fresh UUID for a group and the default UUIDs of the
-- new rows are the parameters `resize`, `fetch`, `group_uuid` and `row_uuid`.
use check.Common.{
  ℕ, ◌+◌, String, Bool, true, false, not, ◌&&◌, Option, none, some, List, [], ◌∷◌, ◌==◌, ℤ, pos,
  pos_part, ltb, length, keep, if◌then◌else◌, any, find?, Result, ok, err, coalesce?, update_where,
}
use check.Media.Keys.{Bytes, Tier, derive_key}
use check.Media.Defs.{
  CaptureState, uploading, confirmed, Asset, World, MediaErr, not_found, not_confirmed,
  not_original, db_fault, store_fault, MediaConfig, bucket_for_tier, live, positive_or,
  seconds_of_minutes,
}
use check.Media.Service.{is_original, is_confirmed, key_held, add_asset}

abbrev pub is_uploading : CaptureState → Bool
is_uploading uploading = true
is_uploading _ = false

-- `loadOriginal`
unfoldable pub load_original : Bool → ℕ → World → Result MediaErr Asset
load_original fails id w = if fails then err db_fault else elim (find? (live id) w.assets) [
  | none ↦ err not_found
  | some a ↦
      if not (is_original a.tier)
      then err not_original
      else if not (is_confirmed a.capture_state)
      then err not_confirmed
      else ok a
]

-- The nil UUID, which also stands for a null.
abbrev pub group_or_nil : Option ℕ → ℕ
group_or_nil none = 0
group_or_nil (some g) = g

abbrev pub has_id : ℕ → Asset → Bool
has_id id a = a.id == id

abbrev pub join_group : ℕ → Asset → Asset
join_group proposed a = record a { media_group = coalesce? a.media_group (some proposed) }

-- `ensureGroup`
unfoldable pub ensure_group : Bool → ℕ → ℕ → World → World × Result MediaErr ℕ
ensure_group fails id proposed w =
    if fails then (w, err db_fault) else elim (find? (has_id id) w.assets) [
      | none ↦ (w, err db_fault)
      | some a ↦ (
        record w { assets = update_where (has_id id) (join_group proposed) w.assets },
        ok (group_or_nil (coalesce? a.media_group (some proposed))),
      )
    ]

abbrev pub sibling_row : Asset → ℕ → Tier → String → Bytes → String → ℕ → ℕ → ℕ → ℕ → Asset
sibling_row orig group tier bucket key content_type size uuid now id = record {
  id = id;
  client_uuid = uuid;
  owner_type = orig.owner_type;
  owner_id = orig.owner_id;
  tier = tier;
  cos_bucket = bucket;
  cos_key = key;
  cos_region = orig.cos_region;
  content_type = content_type;
  byte_size = some (pos size);
  width = none;
  height = none;
  etag = none;
  capture_state = confirmed;
  verified_at = some now;
  media_group = some group;
  reaped_at = none;
  created_by = orig.created_by;
  updated_by = orig.created_by;
  created_at = now;
  deleted = false;
}

-- `insertSibling`: a row that holds (bucket, key) suppresses the insert.
unfoldable pub insert_sibling :
    Bool
    → Asset
    → ℕ
    → Tier
    → String
    → Bytes
    → String
    → ℕ
    → ℕ
    → ℕ
    → World
    → World × Result MediaErr (Unit {0})
insert_sibling fails orig group tier bucket key content_type size uuid now w =
    if fails
    then (w, err db_fault)
    else if key_held bucket key w.assets
    then (w, ok tt)
    else if any (λ a. a.client_uuid == uuid) w.assets
    then (w, err db_fault)
    else (add_asset (sibling_row orig group tier bucket key content_type size uuid now) w, ok tt)

-- `deriveTiers`
abbrev pub derive_tiers : List (Tier × ℕ)
derive_tiers = (Tier.web, 1920) ∷ (Tier.thumb, 320) ∷ []

module _ (resize : Bytes → ℕ → String → Bytes × String) (row_uuid : Tier → ℕ) (cfg : MediaConfig)
    (fail : ℕ → Bool) where
  -- One turn of the loop: the object, then its row. Calls `i` and `i + 1` are those of the turn.
  unfoldable pub derive_tier :
      ℕ → Asset → ℕ → Bytes → ℕ → Tier → ℕ → World → World × Result MediaErr (Unit {0})
  derive_tier i orig group src now tier max_width w =
      let bucket = bucket_for_tier cfg tier in
      let key = derive_key orig.cos_key tier in
      let (content, content_type) = resize src max_width orig.content_type in
      if fail i
      then (w, err store_fault)
      else insert_sibling (fail (i + 1)) orig group tier bucket key content_type (length content)
          (row_uuid tier) now
          (record w {
            put_objects =
                record {
                  bucket = bucket;
                  key = key;
                  content_type = content_type;
                  content = content;
                }
                ∷ w.put_objects;
          })

  abbrev pub then_derive :
      (World → World × Result MediaErr (Unit {0}))
      → World × Result MediaErr (Unit {0})
      → World × Result MediaErr (Unit {0})
  then_derive next (w, err e) = (w, err e)
  then_derive next (w, ok u) = next w

  -- The loop; an error ends it and keeps what the earlier turns did.
  unfoldable pub derive_loop :
      ℕ → List (Tier × ℕ) → Asset → ℕ → Bytes → ℕ → World → World × Result MediaErr (Unit {0})
  derive_loop i [] orig group src now w = (w, ok tt)
  derive_loop i ((tier, max_width) ∷ tiers) orig group src now w =
      then_derive (derive_loop (i + 2) tiers orig group src now)
        (derive_tier i orig group src now tier max_width w)

  -- The group of the original, assigned if it has none.
  unfoldable pub choose_group : Asset → ℕ → World → World × Result MediaErr ℕ
  choose_group orig group_uuid w =
      if group_or_nil orig.media_group == 0
      then ensure_group (fail 1) orig.id group_uuid w
      else (w, ok (group_or_nil orig.media_group))

  abbrev pub with_source :
      (String → Bytes → Option Bytes)
      → Asset
      → ℕ
      → World × Result MediaErr ℕ
      → World × Result MediaErr (Unit {0})
  with_source fetch orig now (w, err e) = (w, err e)
  with_source fetch orig now (w, ok group) = elim (fetch orig.cos_bucket orig.cos_key) [
    | none ↦ (w, err store_fault)
    | some src ↦ derive_loop 2 derive_tiers orig group src now w
  ]

  -- `HandleDeriveTiers`, after the payload is decoded.
  unfoldable pub handle_derive_tiers :
      (String → Bytes → Option Bytes) → ℕ → ℕ → ℕ → World → World × Result MediaErr (Unit {0})
  handle_derive_tiers fetch id group_uuid now w = elim (load_original (fail 0) id w) [
    | err e ↦ (w, err e)
    | ok orig ↦ with_source fetch orig now (choose_group orig group_uuid w)
  ]

-- Rows that the reaper flags: uploads that began more than the TTL (in seconds) before `now`.
abbrev pub is_stale : ℕ → ℕ → Asset → Bool
is_stale ttl now a =
    is_uploading a.capture_state
    && not a.deleted
    && ltb (a.created_at + ttl) now
    && elim a.reaped_at [ none ↦ true | some t ↦ false ]

abbrev pub flag_reaped : ℕ → Asset → Asset
flag_reaped now a = record a { reaped_at = some now }

-- `NewReaper` and `Reap`
unfoldable pub reap : Bool → ℤ → ℕ → World → World × Result MediaErr ℕ
reap fails ttl now w =
    let ttl_s = pos_part (positive_or (seconds_of_minutes 1440) ttl) in
    if fails then (w, err db_fault) else (
      record w { assets = update_where (is_stale ttl_s now) (flag_reaped now) w.assets },
      ok (length (keep (is_stale ttl_s now) w.assets)),
    )
