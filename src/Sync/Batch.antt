-- ===== src/Sync/Batch.antt =====
-- `Process` of backend/internal/sync/service.go and the buckets of its result.
use check.Common.{
  ℕ, suc, ◌+◌, Bool, true, false, Option, none, some, List, [], ◌∷◌, ◌++◌, length, keep,
  if◌then◌else◌, Result, ok, err,
}
use check.Sync.Defs.{Bytes, Status, accepted, duplicate, rejected, ItemResult, Db, BatchState}
use check.Sync.Items.{
  InspectionItem, PointItem, ProblemItem, MediaItem, Handler, upsert_inspection,
  upsert_trajectory_point, upsert_problem, upsert_media,
}

-- A section that the request leaves out is an empty one.
pub record BatchRequest : Type 0 where
  pub inspections : List InspectionItem
  pub trajectory_points : List PointItem
  pub problems : List ProblemItem
  pub media : List MediaItem

-- `countItems`
unfoldable pub count_items : BatchRequest → ℕ
count_items req =
    length req.inspections + length req.trajectory_points + length req.problems + length req.media

-- One `for` loop: the n-th item of the batch meets the database calls `fail n`.
unfoldable pub run_section :
    {A : Type 0}
    → ((ℕ → Bool) → A → Handler)
    → (ℕ → ℕ → Bool)
    → ℕ
    → List A
    → Db
    → BatchState
    → Db × BatchState × List ItemResult
run_section handle fail n [] db state = (db, state, [])
run_section handle fail n (item ∷ items) db state =
    let (db₁, state₁, result) = handle (fail n) item db state in
    let (db₂, state₂, results) = run_section handle fail (suc n) items db₁ state₁ in
    (db₂, state₂, result ∷ results)

abbrev pub same_status : Status → Status → Bool
same_status accepted accepted = true
same_status duplicate duplicate = true
same_status rejected rejected = true
same_status _ _ = false

abbrev pub has_status : Status → ItemResult → Bool
has_status s r = same_status r.status s

abbrev pub present : List ItemResult → Option (List ItemResult)
present [] = none
present (r ∷ rs) = some (r ∷ rs)

pub record BatchResult : Type 0 where
  pub results : List ItemResult
  pub accepted_items : Option (List ItemResult)
  pub rejected_items : Option (List ItemResult)
  pub duplicate_items : Option (List ItemResult)

-- `bucketize`: a bucket without members is left out.
unfoldable pub bucketize : List ItemResult → BatchResult
bucketize results = record {
  results = results;
  accepted_items = present (keep (has_status accepted) results);
  rejected_items = present (keep (has_status rejected) results);
  duplicate_items = present (keep (has_status duplicate) results);
}

abbrev pub empty_state : BatchState
empty_state = record { inspection_ids = []; problem_ids = [] }

pub data BatchErr : Type 0 where
  tx_fault : BatchErr

module _ (encode : ℕ → ℕ → Option Bytes) (valid_geom : Bytes → Bool) where
  -- The transaction body: inspections, points, problems, media. No item's failure ends it.
  unfoldable pub run_batch : (ℕ → ℕ → ℕ → Bool) → BatchRequest → ℕ → Db → Db × List ItemResult
  run_batch fail req actor db =
      let (db₁, st₁, r₁) =
        run_section (λ f item. upsert_inspection f item actor) (fail 0) 0 req.inspections db
          empty_state in
      let (db₂, st₂, r₂) =
        run_section (upsert_trajectory_point encode valid_geom) (fail 1) 0 req.trajectory_points db₁
          st₁ in
      let (db₃, st₃, r₃) =
        run_section (λ f item. upsert_problem encode valid_geom f item actor) (fail 2) 0
          req.problems db₂ st₂ in
      let (db₄, st₄, r₄) =
        run_section (λ f item. upsert_media f item actor) (fail 3) 0 req.media db₃ st₃ in
      (db₄, r₁ ++ (r₂ ++ (r₃ ++ r₄)))

  -- `Process`: the whole batch in one transaction.
  unfoldable pub process :
      Bool → Bool → (ℕ → ℕ → ℕ → Bool) → BatchRequest → ℕ → Db → Db × Result BatchErr BatchResult
  process begin_fails commit_fails fail req actor db =
      if begin_fails
      then (db, err tx_fault)
      else (let (db', results) = run_batch fail req actor db in
          if commit_fails then (db, err tx_fault) else (db', ok (bucketize results)))
