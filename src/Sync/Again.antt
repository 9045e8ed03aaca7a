-- ===== src/Sync/Again.antt =====
-- The replay of a point, a problem or a media item within its batch.
pub mod Lookups
pub mod Bodies
use check.Common.{
  ℕ, ◌≡◌, ◌≢◌, refl, ap, ◌∙◌, Bool, true, false, not, ◌&&◌, ◌⊎◌, Option, none, some, List, [], ◌∷◌,
  ◌==◌, Result, ok, err, arith, inl, inr, with_savepoint, Result-cases, Bool-cases, Option-cases,
  find?, Body, if◌then◌else◌,
}
use check.Sync.Defs.{
  Bytes, SpErr, other_fault, Status, duplicate, rejected, Db, BatchState, ItemResult, Table, Point,
  Problem, Media, Inspection, OwnerType, lookup, trajectory_reason, media_reason,
}
use check.Sync.Items.{
  Handler, PointItem, ProblemItem, MediaItem, upsert_trajectory_point, upsert_problem, upsert_media,
  plain_done, problem_done, point_body, problem_body, media_body, insert_point, insert_problem,
  insert_media, point_ewkb, check_geom, resolve_inspection, resolve_parent, resolve_dict_version,
  resolve_media_owner, as_seq_conflict,
}
use check.Sync.Keeps.{as_seq_conflict-ok}
use check.Sync.Replay.{no_failure, upsert-again}
use check.Sync.Again.Lookups.{savepoint-cases, savepoint-ok}
use check.Sync.Again.Bodies.{point_body-again, problem_body-again, media_body-again}

-- The same item again finds the first row and changes nothing.
abbrev pub Repeats : Handler → Handler → Db → BatchState → Type 0
Repeats handle again db st =
    let first = handle db st in
    let second = again first.0 st in
    (first.2.status ≡ rejected)
    ⊎ ((second.0 ≡ first.0)
        × (second.2.status ≡ duplicate)
        × (second.2.server_id ≡ first.2.server_id))

upsert_media-Repeats :
    (fail : ℕ → Bool) (item : MediaItem) (actor : ℕ) (db : Db) (st : BatchState)
    → Repeats (upsert_media fail item actor) (upsert_media no_failure item actor) db st
unfolding upsert_media
upsert_media-Repeats fail item actor db st =
    elim (savepoint-cases other_fault (media_body fail item actor st) db (fail 0) (fail 1)) [
      | inl (e, u) ↦ inl (rw u refl)
      | inr ((id, b), db', v, u) ↦ inr (
          rw
            (
              u,
              savepoint-ok other_fault (media_body no_failure item actor st) db' (id, false) db'
                  (media_body-again fail item actor st db db' id b v),
            )
            (refl, refl, refl))
    ]

module _ (encode : ℕ → ℕ → Option Bytes) (valid_geom : Bytes → Bool) where
  upsert_trajectory_point-eq :
      (fail : ℕ → Bool) (item : PointItem) (geom : Bytes) (db : Db) (st : BatchState)
      → point_ewkb encode valid_geom item.coordinates ≡ some geom
      → upsert_trajectory_point encode valid_geom fail item db st
        ≡ plain_done trajectory_reason item.client_uuid st (
            with_savepoint
              (fail 0)
              (fail 1)
              other_fault
              (point_body encode valid_geom fail item geom st)
              db)
  unfolding upsert_trajectory_point
  upsert_trajectory_point-eq fail item geom db st g = rw (g, upsert_trajectory_point) refl

  upsert_trajectory_point-repeat :
      (fail : ℕ → Bool) (item : PointItem) (db : Db) (st : BatchState) (db' : Db) (r : ℕ × Bool)
      (id : ℕ)
      → upsert_trajectory_point encode valid_geom fail item db st
        ≡ plain_done trajectory_reason item.client_uuid st (db', ok (id, r.1))
      → upsert_trajectory_point encode valid_geom no_failure item db' st
        ≡ plain_done trajectory_reason item.client_uuid st (db', ok (id, false))
      → let first = upsert_trajectory_point encode valid_geom fail item db st in
        let second = upsert_trajectory_point encode valid_geom no_failure item first.0 st in
        (second.0 ≡ first.0)
        × (second.2.status ≡ duplicate)
        × (second.2.server_id ≡ first.2.server_id)
  upsert_trajectory_point-repeat fail item db st db' r id h k = rw (h, k) (refl, refl, refl)

  upsert_trajectory_point-Repeats :
      (fail : ℕ → Bool) (item : PointItem) (db : Db) (st : BatchState)
      → Repeats
          (upsert_trajectory_point encode valid_geom fail item)
          (upsert_trajectory_point encode valid_geom no_failure item)
          db
          st
  unfolding upsert_trajectory_point
  upsert_trajectory_point-Repeats fail item db st =
      elim (Option-cases (point_ewkb encode valid_geom item.coordinates)) [
        | inl n ↦ inl (rw (n, upsert_trajectory_point) refl)
        | inr (geom, g) ↦
            elim (savepoint-cases other_fault (point_body encode valid_geom fail item geom st) db
              (fail 0) (fail 1)) [
                | inl (e, u) ↦ inl (rw (g, u, upsert_trajectory_point) refl)
                | inr ((id, b), db', v, u) ↦
                    let second =
                      savepoint-ok other_fault
                        (point_body encode valid_geom no_failure item geom st) db' (id, false) db'
                        (point_body-again encode valid_geom fail item geom st db db' id b v) in
                    inr (
                      upsert_trajectory_point-repeat fail item db st db' (id, b) id
                        (upsert_trajectory_point-eq fail item geom db st g
                          ∙ ap (plain_done trajectory_reason item.client_uuid st) u)
                        (upsert_trajectory_point-eq no_failure item geom db' st g
                          ∙ ap (plain_done trajectory_reason item.client_uuid st) second))
              ]
      ]

  upsert_problem-eq :
      (fail : ℕ → Bool) (item : ProblemItem) (actor : ℕ) (geom : Bytes) (db : Db) (st : BatchState)
      → point_ewkb encode valid_geom item.coordinates ≡ some geom
      → upsert_problem encode valid_geom fail item actor db st
        ≡ problem_done item.client_uuid st (
            with_savepoint
              (fail 0)
              (fail 1)
              other_fault
              (problem_body encode valid_geom fail item actor geom st)
              db)
  unfolding upsert_problem
  upsert_problem-eq fail item actor geom db st g = rw (g, upsert_problem) refl

  upsert_problem-repeat :
      (fail : ℕ → Bool) (item : ProblemItem) (actor : ℕ) (db : Db) (st : BatchState) (db' : Db)
      (r : ℕ × Bool) (id : ℕ)
      → upsert_problem encode valid_geom fail item actor db st
        ≡ problem_done item.client_uuid st (db', ok (id, r.1))
      → upsert_problem encode valid_geom no_failure item actor db' st
        ≡ problem_done item.client_uuid st (db', ok (id, false))
      → let first = upsert_problem encode valid_geom fail item actor db st in
        let second = upsert_problem encode valid_geom no_failure item actor first.0 st in
        (second.0 ≡ first.0)
        × (second.2.status ≡ duplicate)
        × (second.2.server_id ≡ first.2.server_id)
  upsert_problem-repeat fail item actor db st db' r id h k = rw (h, k) (refl, refl, refl)

  upsert_problem-Repeats :
      (fail : ℕ → Bool) (item : ProblemItem) (actor : ℕ) (db : Db) (st : BatchState)
      → Repeats
          (upsert_problem encode valid_geom fail item actor)
          (upsert_problem encode valid_geom no_failure item actor)
          db
          st
  unfolding upsert_problem
  upsert_problem-Repeats fail item actor db st =
      elim (Option-cases (point_ewkb encode valid_geom item.coordinates)) [
        | inl n ↦ inl (rw (n, upsert_problem) refl)
        | inr (geom, g) ↦
            elim (savepoint-cases other_fault
              (problem_body encode valid_geom fail item actor geom st) db (fail 0) (fail 1)) [
                | inl (e, u) ↦ inl (rw (g, u, upsert_problem) refl)
                | inr ((id, b), db', v, u) ↦
                    let second =
                      savepoint-ok other_fault
                        (problem_body encode valid_geom no_failure item actor geom st) db'
                        (id, false) db'
                        (problem_body-again encode valid_geom fail item actor geom st db db' id b
                          v) in
                    inr (
                      upsert_problem-repeat fail item actor db st db' (id, b) id
                        (upsert_problem-eq fail item actor geom db st g
                          ∙ ap (problem_done item.client_uuid st) u)
                        (upsert_problem-eq no_failure item actor geom db' st g
                          ∙ ap (problem_done item.client_uuid st) second))
              ]
      ]

  -- A point, a problem or a media item is rejected, or its second delivery to the same batch, while
  -- the database does not fail, is answered `duplicate` with the id of the first answer and leaves
  -- the tables as the first left them.
  pub second_delivery-Repeats :
      (fail : ℕ → Bool) (actor : ℕ) (db : Db) (st : BatchState) (p : PointItem) (q : ProblemItem)
      (m : MediaItem)
      → Repeats
          (upsert_trajectory_point encode valid_geom fail p)
          (upsert_trajectory_point encode valid_geom no_failure p)
          db
          st
        × Repeats
            (upsert_problem encode valid_geom fail q actor)
            (upsert_problem encode valid_geom no_failure q actor)
            db
            st
        × Repeats (upsert_media fail m actor) (upsert_media no_failure m actor) db st
  second_delivery-Repeats fail actor db st p q m = (
    upsert_trajectory_point-Repeats fail p db st,
    upsert_problem-Repeats fail q actor db st,
    upsert_media-Repeats fail m actor db st,
  )
