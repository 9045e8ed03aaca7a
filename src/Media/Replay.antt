-- ===== src/Media/Replay.antt =====
-- The replay of a confirmation.
use check.Common.{
  ℕ, ◌≡◌, refl, Bool, true, false, some, List, [], ◌∷◌, String, arith, inl, inr, update_where, ok,
  with_tx, find?,
}
use check.Media.Keys.{Bytes}
use check.Media.Defs.{Asset, World, live_uuid}
use check.Media.Service.{
  ConfirmInput, HeadAnswer, confirm_body, confirm, confirm_row, has_uuid, is_confirmed,
}
use check.Media.Confirm.{confirm-eq-ok}

abbrev no_failure : ℕ → Bool
no_failure _ = false

find-confirmed :
    (in' : ConfirmInput) (etag : Bytes) (actor now : ℕ) (a : Asset) (rows : List Asset)
    → find? (live_uuid in'.client_uuid) rows ≡ some a
    → find?
        (live_uuid in'.client_uuid)
        (update_where (has_uuid in'.client_uuid) (confirm_row in' etag actor now) rows)
      ≡ some (confirm_row in' etag actor now a)
find-confirmed in' etag actor now a [] h = cc
find-confirmed in' etag actor now a (r ∷ rows) h =
    ground (arith, find-confirmed in' etag actor now a rows)

confirm-found :
    (lower : Bytes → Bytes) (head : String → Bytes → HeadAnswer) (in' : ConfirmInput)
    (actor now : ℕ) (w : World) (a : Asset)
    → find? (live_uuid in'.client_uuid) w.assets ≡ some a
    → is_confirmed a.capture_state ≡ true
    → confirm lower head no_failure in' actor now w ≡ (w, ok (a, false))
unfolding confirm confirm_body with_tx
confirm-found lower head in' actor now w a f c = rw (f, c) refl

-- After a confirmation that succeeded, confirming the same UUID again, whatever the client reports
-- and whatever the object store holds, is answered with a confirmed row while the database does not
-- fail; it changes nothing and asks for no derivation.
pub confirm-again :
    (lower : Bytes → Bytes) (head head' : String → Bytes → HeadAnswer) (fail : ℕ → Bool)
    (in' in'' : ConfirmInput) (actor now actor' now' : ℕ) (w : World) (r : Asset × Bool)
    → in''.client_uuid ≡ in'.client_uuid
    → (confirm lower head fail in' actor now w).1 ≡ ok r
    → let w' = (confirm lower head fail in' actor now w).0 in
      (a : Asset) × (is_confirmed a.capture_state ≡ true)
      × (confirm lower head' no_failure in'' actor' now' w' ≡ (w', ok (a, false)))
confirm-again lower head head' fail in' in'' actor now actor' now' w r same h =
    let w' : World = (confirm lower head fail in' actor now w).0 in
    let (a, f, cases) = confirm-eq-ok lower head fail in' actor now w r h in
    elim cases [
      | inl (c, e, left) ↦
          (a, c, confirm-found lower head' in'' actor' now' w' a (rw (same, left) f) c)
      | inr (etag, size, hd, em, sm, left) ↦ (
        confirm_row in' etag actor now a,
        refl,
        confirm-found lower head' in'' actor' now' w' (confirm_row in' etag actor now a)
            (rw (same, left) (find-confirmed in' etag actor now a w.assets f)) refl,
      )
    ]
