-- ===== src/Media/Forward.antt =====
-- No operation rewinds a capture state, drops a row or changes a key.
pub mod Order
pub mod Uploads
pub mod Tiers
use check.Common.{
  ℕ, ◌+◌, ◌≡◌, refl, Bool, true, false, Option, List, [], ◌∷◌, ltb_ℤ, ℤ, pos, String, arith,
  Bool-cases, Option-cases, Result-cases, inl, inr, update_where, insert_row, any, ◌==◌, Result, ok,
  err, with_tx-keeps, find?,
}
use check.Media.Keys.{Bytes, Tier, OwnerType, build_original_key}
use check.Media.Defs.{
  CaptureState, capture_rank, Asset, World, MediaErr, db_fault, MediaConfig, live_uuid,
}
use check.Media.Service.{
  CredentialsInput, ConfirmInput, HeadAnswer, upsert_uploading_row, issue_upload_credentials,
  mark_confirmed, confirm_body, confirm, confirm_row, grant, key_held, has_uuid, is_original,
}
use check.Media.Worker.{
  insert_sibling, derive_tier, derive_loop, then_derive, choose_group, ensure_group, with_source,
  handle_derive_tiers, derive_tiers, load_original, reap, is_stale, flag_reaped, has_id, join_group,
  group_or_nil,
}
use check.Media.Forward.Order.{Advances}
use check.Media.Forward.Uploads.{issue-Advances, confirm-Advances, reap-Advances}
use check.Media.Forward.Tiers.{derive-Advances}

-- Issuing credentials, confirming, deriving tiers and reaping never move a row to an earlier capture
-- state, never drop a row and never change a row's id or key, whatever is requested, whatever the
-- external services answer and whatever calls the database fails.
pub media_operations-Advances :
    (uuid_text : ℕ → Bytes) (lower : Bytes → Bytes) (head : String → Bytes → HeadAnswer)
    (issue : String → String → Bytes → Option ℕ) (resize : Bytes → ℕ → String → Bytes × String)
    (row_uuid : Tier → ℕ) (fetch : String → Bytes → Option Bytes) (cfg : MediaConfig)
    (fail : ℕ → Bool) (up : CredentialsInput) (con : ConfirmInput) (id group_uuid actor now : ℕ)
    (ttl : ℤ) (w : World)
    → Advances w.assets (issue_upload_credentials uuid_text fail cfg issue up actor now w).0.assets
      × Advances w.assets (confirm lower head fail con actor now w).0.assets
      × Advances w.assets
          (handle_derive_tiers resize row_uuid cfg fail fetch id group_uuid now w).0.assets
      × Advances w.assets (reap (fail 0) ttl now w).0.assets
media_operations-Advances uuid_text lower head issue resize row_uuid fetch cfg fail up con id
      group_uuid actor now ttl w =
    (
      issue-Advances uuid_text fail cfg issue up actor now w,
      confirm-Advances lower head fail con actor now w,
      derive-Advances resize row_uuid cfg fail fetch id group_uuid now w,
      reap-Advances (fail 0) ttl now w,
    )
