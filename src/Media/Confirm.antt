-- ===== src/Media/Confirm.antt =====
-- What a confirmation verifies, and its replay.
use check.Common.{
  eq_ℤ, ℕ, ◌≡◌, refl, ◌⊎◌, Bool, true, false, not, ◌&&◌, ◌||◌, some, ℤ, String, if◌then◌else◌,
  Bool-cases, Option-cases, Result-cases, inl, inr, update_where, Result, ok, err, with_tx-eq-ok,
  find?,
}
use check.Media.Keys.{Bytes, bytes_eq, is_nil, etags_match}
use check.Media.Defs.{
  confirmed, can_transition, Asset, World, MediaErr, db_fault, store_fault, verify_failed,
  live_uuid,
}
use check.Media.Service.{
  ConfirmInput, HeadAnswer, missing, failed, present, verify, mark_confirmed, confirm_body, confirm,
  confirm_row, has_uuid, is_confirmed,
}

module _ (lower : Bytes → Bytes) (head : String → Bytes → HeadAnswer) (fail : ℕ → Bool)
    (in' : ConfirmInput) (actor now : ℕ) (w : World) where
  -- A successful body found the row confirmed and left all as it was, or verified and marked it.
  pub confirm_body-cases :
      (r : Asset × Bool) (w' : World)
      → confirm_body lower head fail in' actor now w ≡ ok (r, w')
      → ((a : Asset) × (find? (live_uuid in'.client_uuid) w.assets ≡ some a)
          × (is_confirmed a.capture_state ≡ true)
          × (r.0 ≡ a)
          × (r.1 ≡ false)
          × (w' ≡ w))
        ⊎ ((a : Asset) × (etag : Bytes) × (find? (live_uuid in'.client_uuid) w.assets ≡ some a)
            × (verify lower head fail in' a ≡ ok etag)
            × (can_transition a.capture_state confirmed ≡ true)
            × (mark_confirmed lower head fail in' etag actor now w ≡ ok (r, w')))
  unfolding confirm_body
  confirm_body-cases r w' h = elim (Bool-cases (fail 1)) [
    | inl e ↦ absurd (cc (rw e at h))
    | inr e ↦ elim (Option-cases (find? (live_uuid in'.client_uuid) w.assets)) [
      | inl n ↦ absurd (cc (rw (e, n) at h))
      | inr (a, f) ↦ elim (Bool-cases (is_confirmed a.capture_state)) [
        | inl c ↦ elim (Bool-cases (fail 2)) [
          | inl g ↦ absurd (cc (rw (e, f, c, g) at h))
          | inr g ↦ let k = rw (e, f, c, g) at h in inl (a, f, c, cc k, cc k, cc k)
        ]
        | inr c ↦ elim (Result-cases (verify lower head fail in' a)) [
          | inr (x, v) ↦ absurd (cc (rw (e, f, c, v) at h))
          | inl (etag, v) ↦ elim (Bool-cases (can_transition a.capture_state confirmed)) [
            | inr t ↦ absurd (cc (rw (e, f, c, v, t) at h))
            | inl t ↦ inr (a, etag, f, v, t, rw (e, f, c, v, t) at h)
          ]
        ]
      ]
    ]
  ]

  abbrev after_head : Asset → HeadAnswer → Result MediaErr Bytes
  after_head a answer = elim answer [
    | missing ↦ err verify_failed
    | failed ↦ err store_fault
    | present etag size ↦
        if not (etags_match lower etag in'.etag) || not (eq_ℤ size in'.byte_size)
        then err verify_failed
        else ok etag
  ]

  verify_head-eq :
      (answer : HeadAnswer) (a : Asset) (etag : Bytes)
      → head a.cos_bucket a.cos_key ≡ answer
      → after_head a answer ≡ ok etag
      → (size : ℤ) × (head a.cos_bucket a.cos_key ≡ present etag size)
        × (etags_match lower etag in'.etag ≡ true)
        × (eq_ℤ size in'.byte_size ≡ true)
  verify_head-eq missing a etag e h = absurd (cc)
  verify_head-eq failed a etag e h = absurd (cc)
  verify_head-eq (present etag' size) a etag e h =
      elim (Bool-cases (etags_match lower etag' in'.etag)) [
        | inr m ↦ absurd (cc (rw m at h))
        | inl m ↦ elim (Bool-cases (eq_ℤ size in'.byte_size)) [
          | inr q ↦ absurd (cc (rw (m, q) at h))
          | inl q ↦
              let same : etag' ≡ etag = cc (rw (m, q) at h) in
              (size, rw (← same) e, rw (← same) m, q)
        ]
      ]

  verify-eq-ok :
      (a : Asset) (etag : Bytes)
      → verify lower head fail in' a ≡ ok etag
      → (size : ℤ) × (head a.cos_bucket a.cos_key ≡ present etag size)
        × (etags_match lower etag in'.etag ≡ true)
        × (eq_ℤ size in'.byte_size ≡ true)
  unfolding verify
  verify-eq-ok a etag h =
      elim (Bool-cases (not (is_nil in'.key) && not (bytes_eq in'.key a.cos_key))) [
        | inl k ↦ absurd (cc (rw k at h))
        | inr k ↦ verify_head-eq (head a.cos_bucket a.cos_key) a etag refl (rw k at h)
      ]

  mark_confirmed-eq :
      (etag : Bytes) (r : Asset × Bool) (w' : World)
      → mark_confirmed lower head fail in' etag actor now w ≡ ok (r, w')
      → w' ≡ record w {
        assets = update_where (has_uuid in'.client_uuid) (confirm_row in' etag actor now) w.assets;
      }
  unfolding mark_confirmed
  mark_confirmed-eq etag r w' h = elim (Bool-cases (fail 3)) [
    | inl e ↦ absurd (cc (rw e at h))
    | inr e ↦ elim (Option-cases (find? (has_uuid in'.client_uuid) w.assets)) [
      | inl n ↦ absurd (cc (rw (e, n) at h))
      | inr (a, f) ↦ cc (rw (e, f) at h)
    ]
  ]

  -- A confirmation that succeeds found a live row of the UUID. Either that row was confirmed, and
  -- the answer is the row, nothing has changed and nothing is to be derived. Or the object store
  -- holds the row's object with an ETag that matches the reported one and with the reported size,
  -- and what has changed is that the rows of that UUID are marked as confirmed.
  pub confirm-eq-ok :
      (r : Asset × Bool)
      → (confirm lower head fail in' actor now w).1 ≡ ok r
      → (a : Asset) × (find? (live_uuid in'.client_uuid) w.assets ≡ some a)
        × (((is_confirmed a.capture_state ≡ true)
              × (r ≡ (a, false))
              × ((confirm lower head fail in' actor now w).0 ≡ w))
            ⊎ ((etag : Bytes) × (size : ℤ) × (head a.cos_bucket a.cos_key ≡ present etag size)
                × (etags_match lower etag in'.etag ≡ true)
                × (eq_ℤ size in'.byte_size ≡ true)
                × ((confirm lower head fail in' actor now w).0 ≡ record w {
                  assets =
                      update_where
                        (has_uuid in'.client_uuid)
                        (confirm_row in' etag actor now)
                        w.assets;
                })))
  unfolding confirm
  confirm-eq-ok r h =
      let e =
        with_tx-eq-ok (fail 0) (fail 4) db_fault (confirm_body lower head fail in' actor now) w h in
      elim (confirm_body-cases r _ e) [
        | inl (a, f, c, ra, rb, same) ↦ (a, f, inl (c, cc (ra, rb), same))
        | inr (a, etag, f, v, t, m) ↦
            let (size, hd, em, sm) = verify-eq-ok a etag v in
            (a, f, inr (etag, size, hd, em, sm, mark_confirmed-eq etag r _ m))
      ]
