-- ===== src/Media/Forward/Uploads.antt =====
-- Credentials, confirmation and the reaper advance the rows.
use check.Common.{
  ℕ, ◌≡◌, refl, Bool, true, false, Option, ℤ, String, arith, Bool-cases, Option-cases, inl, inr,
  update_where, any, ◌==◌, Result, ok, err, with_tx-keeps, find?,
}
use check.Media.Keys.{Bytes, OwnerType, build_original_key}
use check.Media.Defs.{Asset, World, MediaErr, db_fault, MediaConfig, live_uuid}
use check.Media.Service.{
  CredentialsInput, ConfirmInput, HeadAnswer, upsert_uploading_row, issue_upload_credentials,
  mark_confirmed, confirm_body, confirm, confirm_row, grant, key_held, has_uuid, is_original,
}
use check.Media.Worker.{reap, is_stale, flag_reaped}
use check.Media.Confirm.{confirm_body-cases}
use check.Media.Forward.Order.{
  Advances, Advances-refl, Advances-insert, Advances-update, confirmed-last,
}

upsert_uploading_row-Advances :
    (uuid_text : ℕ → Bytes) (fail : ℕ → Bool) (cfg : MediaConfig) (in' : CredentialsInput)
    (o : OwnerType) (bucket content_type : String) (actor now : ℕ) (w : World)
    → Advances w.assets
        (upsert_uploading_row uuid_text fail cfg in' o bucket content_type actor now w).0.assets
unfolding upsert_uploading_row
upsert_uploading_row-Advances uuid_text fail cfg in' o bucket content_type actor now w =
    let same = Advances-refl w.assets in
    elim (Bool-cases (fail 0)) [
      | inl e ↦ rw e same
      | inr e ↦ elim (Bool-cases (any (λ a. a.client_uuid == in'.client_uuid) w.assets)) [
        | inl u ↦ elim (Bool-cases (fail 1)) [
          | inl g ↦ rw (e, u, g) same
          | inr g ↦ elim (Option-cases (find? (live_uuid in'.client_uuid) w.assets)) [
            | inl n ↦ rw (e, u, g, n) same
            | inr (a, f) ↦ rw (e, u, g, f) same
          ]
        ]
        | inr u ↦
            elim (Bool-cases (
              key_held bucket (build_original_key uuid_text o in'.owner_id in'.client_uuid)
                w.assets)) [
                  | inl k ↦ rw (e, u, k) same
                  | inr k ↦ rw (e, u, k) (Advances-insert _ w.assets)
                ]
      ]
    ]

grant-world :
    (cfg : MediaConfig) (issue : String → String → Bytes → Option ℕ) (bucket : String)
    (x : World × Result MediaErr Bytes) (uuid_text : ℕ → Bytes) (fail : ℕ → Bool)
    → (grant uuid_text fail cfg issue bucket x).0 ≡ x.0
grant-world cfg issue bucket (w, err e) uuid_text fail = refl
grant-world cfg issue bucket (w, ok key) uuid_text fail = ground arith

pub issue-Advances :
    (uuid_text : ℕ → Bytes) (fail : ℕ → Bool) (cfg : MediaConfig)
    (issue : String → String → Bytes → Option ℕ) (in' : CredentialsInput) (actor now : ℕ)
    (w : World)
    → Advances w.assets (issue_upload_credentials uuid_text fail cfg issue in' actor now w).0.assets
unfolding issue_upload_credentials
issue-Advances uuid_text fail cfg issue in' actor now w = elim (Bool-cases (is_original in'.tier)) [
  | inr n ↦ rw n (Advances-refl w.assets)
  | inl t ↦ elim (Option-cases in'.owner_type) [
    | inl n ↦ rw (t, n) (Advances-refl w.assets)
    | inr (o, e) ↦
        rw (t, e, grant-world)
          (upsert_uploading_row-Advances uuid_text fail cfg in' o _ _ actor now w)
  ]
]

mark_confirmed-Advances :
    (lower : Bytes → Bytes) (head : String → Bytes → HeadAnswer) (fail : ℕ → Bool)
    (in' : ConfirmInput) (etag : Bytes) (actor now : ℕ) (w : World) (r : Asset × Bool) (w' : World)
    → mark_confirmed lower head fail in' etag actor now w ≡ ok (r, w')
    → Advances w.assets w'.assets
unfolding mark_confirmed
mark_confirmed-Advances lower head fail in' etag actor now w r w' h = elim (Bool-cases (fail 3)) [
  | inl e ↦ absurd (cc (rw e at h))
  | inr e ↦ elim (Option-cases (find? (has_uuid in'.client_uuid) w.assets)) [
    | inl n ↦ absurd (cc (rw (e, n) at h))
    | inr (a, f) ↦
        let same : w' ≡ record w {
          assets =
              update_where (has_uuid in'.client_uuid) (confirm_row in' etag actor now) w.assets;
        } =
          cc (rw (e, f) at h) in
        rw same (
          Advances-update (has_uuid in'.client_uuid) (confirm_row in' etag actor now) w.assets
            (λ a. (refl, refl, confirmed-last a.capture_state)))
  ]
]

confirm_body-Advances :
    (lower : Bytes → Bytes) (head : String → Bytes → HeadAnswer) (fail : ℕ → Bool)
    (in' : ConfirmInput) (actor now : ℕ) (w : World) (r : Asset × Bool) (w' : World)
    → confirm_body lower head fail in' actor now w ≡ ok (r, w')
    → Advances w.assets w'.assets
unfolding confirm_body
confirm_body-Advances lower head fail in' actor now w r w' h =
    elim (confirm_body-cases lower head fail in' actor now w r w' h) [
      | inl (a, f, c, ra, rb, e) ↦ rw e (Advances-refl w.assets)
      | inr (a, etag, f, v, t, e) ↦
          mark_confirmed-Advances lower head fail in' etag actor now w r w' e
    ]

pub confirm-Advances :
    (lower : Bytes → Bytes) (head : String → Bytes → HeadAnswer) (fail : ℕ → Bool)
    (in' : ConfirmInput) (actor now : ℕ) (w : World)
    → Advances w.assets (confirm lower head fail in' actor now w).0.assets
unfolding confirm
confirm-Advances lower head fail in' actor now w =
    with_tx-keeps db_fault (λ w'. Advances w.assets w'.assets) w (Advances-refl w.assets) (fail 0)
      (fail 4) (confirm_body lower head fail in' actor now)
      (λ r w' h. confirm_body-Advances lower head fail in' actor now w r w' h)

pub reap-Advances :
    (fails : Bool) (ttl : ℤ) (now : ℕ) (w : World)
    → Advances w.assets (reap fails ttl now w).0.assets
unfolding reap
reap-Advances true ttl now w = Advances-refl w.assets
reap-Advances false ttl now w =
    Advances-update (is_stale _ now) (flag_reaped now) w.assets (λ a. (refl, refl, ground arith))
