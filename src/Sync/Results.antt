-- ===== src/Sync/Results.antt =====
-- The results of a batch: one for each item, in the order of the request, and their buckets.
use check.Common.{
  ℕ, suc, ◌+◌, ◌≡◌, refl, ap, Bool, true, false, Option, none, some, List, [], ◌∷◌, ◌++◌, length,
  keep, Result, ok, err, arith, inl, inr, Option-cases, with_savepoint,
}
use mathlib.Core.List.{map, map-append}
use check.Sync.Defs.{
  Bytes, SpErr, other_fault, Reason, accepted, duplicate, rejected, Db, BatchState, ItemResult,
  media_reason,
}
use check.Sync.Items.{
  InspectionItem, PointItem, ProblemItem, MediaItem, Handler, upsert_inspection, inspection_done,
  inspection_body, upsert_trajectory_point, plain_done, upsert_problem, problem_done, upsert_media,
  media_body, point_ewkb,
}
use check.Sync.Batch.{
  BatchRequest, run_section, run_batch, process, bucketize, BatchResult, present, has_status,
}

inspection_done-uuid :
    (uuid : ℕ) (st : BatchState) (x : Db × Result SpErr (ℕ × Bool))
    → (inspection_done uuid st x).2.client_uuid ≡ uuid
inspection_done-uuid uuid st (db, err e) = refl
inspection_done-uuid uuid st (db, ok (id, b)) = refl

problem_done-uuid :
    (uuid : ℕ) (st : BatchState) (x : Db × Result SpErr (ℕ × Bool))
    → (problem_done uuid st x).2.client_uuid ≡ uuid
problem_done-uuid uuid st (db, err e) = refl
problem_done-uuid uuid st (db, ok (id, b)) = refl

plain_done-uuid :
    (reason : SpErr → Reason) (uuid : ℕ) (st : BatchState) (x : Db × Result SpErr (ℕ × Bool))
    → (plain_done reason uuid st x).2.client_uuid ≡ uuid
plain_done-uuid reason uuid st (db, err e) = refl
plain_done-uuid reason uuid st (db, ok (id, b)) = refl

abbrev uuids : List ItemResult → List ℕ
uuids = map ItemResult.client_uuid

run_section-uuids :
    {A : Type 0} (handle : (ℕ → Bool) → A → Handler) (uuid_of : A → ℕ) (fail : ℕ → ℕ → Bool) (n : ℕ)
    (items : List A) (db : Db) (st : BatchState)
    → ((f : ℕ → Bool) (item : A) (db : Db) (st : BatchState)
        → (handle f item db st).2.client_uuid ≡ uuid_of item)
    → uuids (run_section handle fail n items db st).2 ≡ map uuid_of items
unfolding run_section
run_section-uuids handle uuid_of fail n [] db st same = refl
run_section-uuids handle uuid_of fail n (item ∷ items) db st same = rw (same (fail n) item db st) (
    ap (λ us. uuid_of item ∷ us)
      (run_section-uuids handle uuid_of fail (suc n) items (handle (fail n) item db st).0
        (handle (fail n) item db st).1 same))

upsert_inspection-uuid :
    (actor : ℕ) (fail : ℕ → Bool) (item : InspectionItem) (db : Db) (st : BatchState)
    → (upsert_inspection fail item actor db st).2.client_uuid ≡ item.client_uuid
unfolding upsert_inspection
upsert_inspection-uuid actor fail item db st =
    inspection_done-uuid item.client_uuid st
      (with_savepoint (fail 0) (fail 1) other_fault (inspection_body fail item actor) db)

upsert_media-uuid :
    (actor : ℕ) (fail : ℕ → Bool) (item : MediaItem) (db : Db) (st : BatchState)
    → (upsert_media fail item actor db st).2.client_uuid ≡ item.client_uuid
unfolding upsert_media
upsert_media-uuid actor fail item db st =
    plain_done-uuid media_reason item.client_uuid st
      (with_savepoint (fail 0) (fail 1) other_fault (media_body fail item actor st) db)

-- The members of a bucket, none where it is left out.
abbrev pub members : Option (List ItemResult) → List ItemResult
members none = []
members (some rs) = rs

members-present : (rs : List ItemResult) → members (present rs) ≡ rs
members-present [] = refl
members-present (r ∷ rs) = refl

keep-partition :
    (rs : List ItemResult)
    → length (keep (has_status accepted) rs)
        + length (keep (has_status rejected) rs)
        + length (keep (has_status duplicate) rs)
      ≡ length rs
keep-partition [] = refl
keep-partition (r ∷ rs) = ground (arith, keep-partition rs)

bucketize-partition :
    (rs : List ItemResult)
    → length (members (bucketize rs).accepted_items)
        + length (members (bucketize rs).rejected_items)
        + length (members (bucketize rs).duplicate_items)
      ≡ length rs
unfolding bucketize
bucketize-partition rs =
    rw
      (
        members-present (keep (has_status accepted) rs),
        members-present (keep (has_status rejected) rs),
        members-present (keep (has_status duplicate) rs),
      )
      (keep-partition rs)

-- The client UUIDs of a request, section by section.
abbrev pub request_uuids : BatchRequest → List ℕ
request_uuids req =
    map InspectionItem.client_uuid req.inspections
    ++ (map PointItem.client_uuid req.trajectory_points
        ++ (map ProblemItem.client_uuid req.problems ++ map MediaItem.client_uuid req.media))

module _ (encode : ℕ → ℕ → Option Bytes) (valid_geom : Bytes → Bool) where
  upsert_trajectory_point-uuid :
      (fail : ℕ → Bool) (item : PointItem) (db : Db) (st : BatchState)
      → (upsert_trajectory_point encode valid_geom fail item db st).2.client_uuid ≡ item.client_uuid
  unfolding upsert_trajectory_point
  upsert_trajectory_point-uuid fail item db st =
      elim (Option-cases (point_ewkb encode valid_geom item.coordinates)) [
        | inl n ↦ rw (n, upsert_trajectory_point)
        | inr (geom, g) ↦ rw (g, upsert_trajectory_point) (plain_done-uuid _ _ _ _)
      ]

  upsert_problem-uuid :
      (actor : ℕ) (fail : ℕ → Bool) (item : ProblemItem) (db : Db) (st : BatchState)
      → (upsert_problem encode valid_geom fail item actor db st).2.client_uuid ≡ item.client_uuid
  unfolding upsert_problem
  upsert_problem-uuid actor fail item db st =
      elim (Option-cases (point_ewkb encode valid_geom item.coordinates)) [
        | inl n ↦ rw (n, upsert_problem)
        | inr (geom, g) ↦ rw (g, upsert_problem) (problem_done-uuid _ _ _)
      ]

  run_batch-uuids :
      (fail : ℕ → ℕ → ℕ → Bool) (req : BatchRequest) (actor : ℕ) (db : Db)
      → uuids (run_batch encode valid_geom fail req actor db).1 ≡ request_uuids req
  unfolding run_batch
  run_batch-uuids fail req actor db = simp (
    map-append,
    run_section-uuids (λ f item. upsert_inspection f item actor) InspectionItem.client_uuid (fail 0)
        0 req.inspections _ _ (upsert_inspection-uuid actor),
    run_section-uuids (upsert_trajectory_point encode valid_geom) PointItem.client_uuid (fail 1) 0
        req.trajectory_points _ _ upsert_trajectory_point-uuid,
    run_section-uuids (λ f item. upsert_problem encode valid_geom f item actor)
        ProblemItem.client_uuid (fail 2) 0 req.problems _ _ (upsert_problem-uuid actor),
    run_section-uuids (λ f item. upsert_media f item actor) MediaItem.client_uuid (fail 3) 0
        req.media _ _ (upsert_media-uuid actor),
  )

  -- A batch that commits answers every item of the request once, in the order of the request, and
  -- its three buckets hold as many results as the batch has.
  pub process-results :
      (begin_fails commit_fails : Bool) (fail : ℕ → ℕ → ℕ → Bool) (req : BatchRequest) (actor : ℕ)
      (db : Db) (res : BatchResult)
      → (process encode valid_geom begin_fails commit_fails fail req actor db).1 ≡ ok res
      → (map ItemResult.client_uuid res.results ≡ request_uuids req)
        × (length (members res.accepted_items)
              + length (members res.rejected_items)
              + length (members res.duplicate_items)
            ≡ length res.results)
  unfolding process bucketize
  process-results true c fail req actor db res h = cc
  process-results false true fail req actor db res h = cc
  process-results false false fail req actor db res h =
      let same : res ≡ bucketize (run_batch encode valid_geom fail req actor db).1 = cc in
      rw same (
        run_batch-uuids fail req actor db,
        bucketize-partition (run_batch encode valid_geom fail req actor db).1,
      )
