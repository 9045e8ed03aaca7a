-- ===== src/Sync/Isolation.antt =====
-- What a rejected item leaves, and the replay of an item that was not rejected.
use check.Common.{
  ℕ, ◌≡◌, ◌≢◌, ◌⊎◌, refl, Bool, Option, Result, ok, err, arith, inl, inr, with_savepoint_atomic,
  Option-cases,
}
use check.Sync.Defs.{
  Bytes, SpErr, other_fault, Reason, Status, accepted, duplicate, rejected, Db, BatchState,
  ItemResult, trajectory_reason, media_reason,
}
use check.Sync.Items.{
  Handler, upsert_inspection, inspection_done, inspection_body, upsert_trajectory_point, plain_done,
  point_body, upsert_problem, problem_done, problem_body, upsert_media, media_body, point_ewkb,
  InspectionItem, PointItem, ProblemItem, MediaItem,
}

abbrev Isolates : Handler → Type 0
Isolates handle =
    (db : Db) (st : BatchState)
    → (handle db st).2.status ≡ rejected
    → ((handle db st).0 ≡ db) × ((handle db st).1 ≡ st)

-- An answer `rejected` comes with the tables and the maps of the batch as they were.
abbrev pub Isolated : Db → BatchState → Db × BatchState × ItemResult → Type 0
Isolated db st x = (x.2.status ≢ rejected) ⊎ ((x.0 ≡ db) × (x.1 ≡ st))

status-cases : (s : Status) → (s ≢ rejected) ⊎ (s ≡ rejected)
status-cases accepted = inl (λ h. cc)
status-cases duplicate = inl (λ h. cc)
status-cases rejected = inr refl

isolated :
    (handle : Handler) (db : Db) (st : BatchState) → Isolates handle → Isolated db st (handle db st)
isolated handle db st h = elim (status-cases (handle db st).2.status) [
  | inl n ↦ inl n
  | inr r ↦ inr (h db st r)
]

abbrev Restores : Db → Db × Result SpErr (ℕ × Bool) → Type 0
Restores db x = (e : SpErr) → x.1 ≡ err e → x.0 ≡ db

inspection_done-rejected :
    (uuid : ℕ) (st : BatchState) (db : Db) (x : Db × Result SpErr (ℕ × Bool))
    → Restores db x
    → (inspection_done uuid st x).2.status ≡ rejected
    → ((inspection_done uuid st x).0 ≡ db) × ((inspection_done uuid st x).1 ≡ st)
inspection_done-rejected uuid st db (db', err e) same h = (same e refl, refl)
inspection_done-rejected uuid st db (db', ok (id, b)) same h = ground arith

problem_done-rejected :
    (uuid : ℕ) (st : BatchState) (db : Db) (x : Db × Result SpErr (ℕ × Bool))
    → Restores db x
    → (problem_done uuid st x).2.status ≡ rejected
    → ((problem_done uuid st x).0 ≡ db) × ((problem_done uuid st x).1 ≡ st)
problem_done-rejected uuid st db (db', err e) same h = (same e refl, refl)
problem_done-rejected uuid st db (db', ok (id, b)) same h = ground arith

plain_done-rejected :
    (reason : SpErr → Reason) (uuid : ℕ) (st : BatchState) (db : Db)
    (x : Db × Result SpErr (ℕ × Bool))
    → Restores db x
    → (plain_done reason uuid st x).2.status ≡ rejected
    → ((plain_done reason uuid st x).0 ≡ db) × ((plain_done reason uuid st x).1 ≡ st)
plain_done-rejected reason uuid st db (db', err e) same h = (same e refl, refl)
plain_done-rejected reason uuid st db (db', ok (id, b)) same h = ground arith

upsert_inspection-Isolates :
    (fail : ℕ → Bool) (item : InspectionItem) (actor : ℕ)
    → Isolates (upsert_inspection fail item actor)
unfolding upsert_inspection
upsert_inspection-Isolates fail item actor db st h =
    inspection_done-rejected item.client_uuid st db _
      (λ e.
        with_savepoint_atomic (fail 0) (fail 1) other_fault (inspection_body fail item actor) db)
      h

upsert_media-Isolates :
    (fail : ℕ → Bool) (item : MediaItem) (actor : ℕ) → Isolates (upsert_media fail item actor)
unfolding upsert_media
upsert_media-Isolates fail item actor db st h =
    plain_done-rejected media_reason item.client_uuid st db _
      (λ e. with_savepoint_atomic (fail 0) (fail 1) other_fault (media_body fail item actor st) db)
      h

module _ (encode : ℕ → ℕ → Option Bytes) (valid_geom : Bytes → Bool) where
  upsert_trajectory_point-Isolates :
      (fail : ℕ → Bool) (item : PointItem)
      → Isolates (upsert_trajectory_point encode valid_geom fail item)
  unfolding upsert_trajectory_point
  upsert_trajectory_point-Isolates fail item db st h =
      elim (Option-cases (point_ewkb encode valid_geom item.coordinates)) [
        | inl n ↦ rw (n, upsert_trajectory_point) (refl, refl)
        | inr (geom, g) ↦
            rw (g, upsert_trajectory_point)
              (plain_done-rejected trajectory_reason item.client_uuid st db _
                (λ e.
                  with_savepoint_atomic (fail 0) (fail 1) other_fault
                    (point_body encode valid_geom fail item geom st) db)
                (rw (g, upsert_trajectory_point) at h))
      ]

  upsert_problem-Isolates :
      (fail : ℕ → Bool) (item : ProblemItem) (actor : ℕ)
      → Isolates (upsert_problem encode valid_geom fail item actor)
  unfolding upsert_problem
  upsert_problem-Isolates fail item actor db st h =
      elim (Option-cases (point_ewkb encode valid_geom item.coordinates)) [
        | inl n ↦ rw (n, upsert_problem) (refl, refl)
        | inr (geom, g) ↦
            rw (g, upsert_problem)
              (problem_done-rejected item.client_uuid st db _
                (λ e.
                  with_savepoint_atomic (fail 0) (fail 1) other_fault
                    (problem_body encode valid_geom fail item actor geom st) db)
                (rw (g, upsert_problem) at h))
      ]

  -- Whatever calls the database fails, an item of any of the four kinds is either not answered with
  -- `rejected` or leaves the tables and the maps of the batch as they were.
  pub rejected-Isolated :
      (fail : ℕ → Bool) (actor : ℕ) (db : Db) (st : BatchState) (i : InspectionItem) (p : PointItem)
      (q : ProblemItem) (m : MediaItem)
      → Isolated db st (upsert_inspection fail i actor db st)
        × Isolated db st (upsert_trajectory_point encode valid_geom fail p db st)
        × Isolated db st (upsert_problem encode valid_geom fail q actor db st)
        × Isolated db st (upsert_media fail m actor db st)
  rejected-Isolated fail actor db st i p q m = (
    isolated (upsert_inspection fail i actor) db st (upsert_inspection-Isolates fail i actor),
    isolated (upsert_trajectory_point encode valid_geom fail p) db st
        (upsert_trajectory_point-Isolates fail p),
    isolated (upsert_problem encode valid_geom fail q actor) db st
        (upsert_problem-Isolates fail q actor),
    isolated (upsert_media fail m actor) db st (upsert_media-Isolates fail m actor),
  )
