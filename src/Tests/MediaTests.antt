-- ===== src/Tests/MediaTests.antt =====
-- The theorems on media at one upload.
use check.Common.{
  eq_ℤ, ℕ, ◌≡◌, refl, ◌⊎◌, String, Bool, true, false, Option, none, some, [], ◌∷◌, ℤ, pos, ok,
  find?, update_where, with_tx,
}
use check.Media.Keys.{
  prefix_of, last_slash, derive_key, Bytes, OwnerType, Tier, build_original_key, upload_prefix,
  etags_match,
}
use check.Media.Defs.{
  bucket_for_tier, uploading, can_transition, Asset, World, MediaConfig, live_uuid,
}
use check.Media.Service.{
  CredentialsInput, ConfirmInput, HeadAnswer, present, verify, mark_confirmed, confirm_body,
  confirm, confirm_row, has_uuid, is_confirmed, issue_upload_credentials,
}
use check.Media.Worker.{handle_derive_tiers, reap}
use check.Media.Forward.Order.{Advances}
use check.Media.Forward.{media_operations-Advances}
use check.Media.Confirm.{confirm-eq-ok}
use check.Media.Replay.{confirm-again}
use check.Media.Derived.{derive_loop-again}
use check.Media.Worker.{derive_loop, derive_tier, derive_tiers, insert_sibling}
use check.Media.Keys.{prefix_of-keys}

abbrev small_config : MediaConfig
small_config = record {
  bucket_original = "o";
  bucket_web = "w";
  bucket_thumb = "t";
  region = "r";
  sts_ttl = pos 900;
  signed_url_ttl = pos 3600;
  uploading_ttl = pos 86400;
}

abbrev one_byte : ℕ → Bytes
one_byte uuid = uuid ∷ []

abbrev as_is : Bytes → Bytes
as_is b = b

abbrev no_failure : ℕ → Bool
no_failure _ = false

abbrev stored : String → Bytes → HeadAnswer
stored bucket key = present (7 ∷ []) (pos 10)

abbrev any_grant : String → String → Bytes → Option ℕ
any_grant bucket region prefix = some 1

abbrev copy : Bytes → ℕ → String → Bytes × String
copy content edge type = (content, type)

abbrev tier_uuid : Tier → ℕ
tier_uuid Tier.original = 50
tier_uuid Tier.web = 51
tier_uuid Tier.thumb = 52

abbrev some_bytes : String → Bytes → Option Bytes
some_bytes bucket key = some (1 ∷ 2 ∷ [])

abbrev upload : Asset
upload = record {
  id = 1;
  client_uuid = 65;
  owner_type = OwnerType.problem;
  owner_id = pos 3;
  tier = Tier.original;
  cos_bucket = "o";
  cos_key = 97 ∷ 47 ∷ 98 ∷ [];
  cos_region = "r";
  content_type = "image/jpeg";
  byte_size = none;
  width = none;
  height = none;
  etag = none;
  capture_state = uploading;
  verified_at = none;
  media_group = none;
  reaped_at = none;
  created_by = some 7;
  updated_by = some 7;
  created_at = 5;
  deleted = false;
}

abbrev one_upload : World
one_upload = record { assets = upload ∷ []; next_id = 2; put_objects = [] }

abbrev next_upload : CredentialsInput
next_upload = record {
  owner_type = some OwnerType.problem;
  owner_id = pos 3;
  tier = Tier.original;
  content_type = "";
  byte_size = pos 0;
  client_uuid = 66;
}

abbrev report : ConfirmInput
report = record {
  client_uuid = 65;
  key = [];
  etag = 34 ∷ 7 ∷ 34 ∷ [];
  byte_size = pos 10;
  width = some (pos 4096);
  height = none;
}

prefix_of-keys_example :
    (prefix_of (derive_key (97 ∷ 47 ∷ 98 ∷ []) Tier.web) ≡ prefix_of (97 ∷ 47 ∷ 98 ∷ []))
    × (prefix_of (build_original_key one_byte OwnerType.problem (pos 3) 65)
        ≡ upload_prefix one_byte OwnerType.problem (pos 3) 65)
prefix_of-keys_example =
    prefix_of-keys one_byte (97 ∷ 47 ∷ 98 ∷ []) Tier.web OwnerType.problem (pos 3) 65

media_operations-Advances_example :
    Advances one_upload.assets
      (issue_upload_credentials one_byte no_failure small_config any_grant next_upload 7 9
        one_upload).0.assets
    × Advances one_upload.assets (confirm as_is stored no_failure report 7 9 one_upload).0.assets
    × Advances one_upload.assets
        (handle_derive_tiers copy tier_uuid small_config no_failure some_bytes 1 40 9
          one_upload).0.assets
    × Advances one_upload.assets (reap (no_failure 0) (pos 0) 9 one_upload).0.assets
media_operations-Advances_example =
    media_operations-Advances one_byte as_is stored any_grant copy tier_uuid some_bytes small_config
      no_failure next_upload report 1 40 7 9 (pos 0) one_upload

abbrev marked : Asset
marked = confirm_row report (7 ∷ []) 7 9 upload

abbrev marked_answer : Asset × Bool
marked_answer = (marked, true)

report-confirms : (confirm as_is stored no_failure report 7 9 one_upload).1 ≡ ok marked_answer
unfolding confirm with_tx confirm_body verify mark_confirmed etags_match can_transition
report-confirms = refl

confirm-eq-ok_example :
    (a : Asset) × (find? (live_uuid report.client_uuid) one_upload.assets ≡ some a)
    × (((is_confirmed a.capture_state ≡ true)
          × (marked_answer ≡ (a, false))
          × ((confirm as_is stored no_failure report 7 9 one_upload).0 ≡ one_upload))
        ⊎ ((etag : Bytes) × (size : ℤ) × (stored a.cos_bucket a.cos_key ≡ present etag size)
            × (etags_match as_is etag report.etag ≡ true)
            × (eq_ℤ size report.byte_size ≡ true)
            × ((confirm as_is stored no_failure report 7 9 one_upload).0 ≡ record one_upload {
              assets =
                  update_where
                    (has_uuid report.client_uuid)
                    (confirm_row report etag 7 9)
                    one_upload.assets;
            })))
confirm-eq-ok_example =
    confirm-eq-ok as_is stored no_failure report 7 9 one_upload marked_answer report-confirms

confirm-again_example :
    let w' = (confirm as_is stored no_failure report 7 9 one_upload).0 in
    (a : Asset) × (is_confirmed a.capture_state ≡ true)
    × (confirm as_is stored (λ _. false) report 8 10 w' ≡ (w', ok (a, false)))
confirm-again_example =
    confirm-again as_is stored stored no_failure report report 7 9 8 10 one_upload marked_answer
      refl report-confirms

derives :
    (derive_loop copy tier_uuid small_config no_failure 2 derive_tiers upload 40
      (1 ∷ [])
      9
      one_upload).1
    ≡ ok tt
unfolding derive_loop derive_tier insert_sibling bucket_for_tier derive_key prefix_of last_slash
derives = refl

derive_loop-again_example :
    let w' =
      (derive_loop copy tier_uuid small_config no_failure 2 derive_tiers upload 40
        (1 ∷ [])
        9
        one_upload).0 in
    let again =
      derive_loop copy tier_uuid small_config
        (λ _. false)
        2
        derive_tiers
        upload
        41
        (2 ∷ [])
        10
        w' in
    (again.0.assets ≡ w'.assets) × (again.1 ≡ ok tt)
derive_loop-again_example =
    derive_loop-again copy copy tier_uuid tier_uuid small_config no_failure 2 derive_tiers upload 40
      41 (1 ∷ []) (2 ∷ []) 9 10 one_upload derives
