-- ===== src/Inspection/Queries.antt =====
-- The operations of backend/internal/inspection/service.go that read many rows: the list of sessions and the
-- trajectory of one.
use check.Common.{
  ℕ, Bool, true, false, not, ◌&&◌, Option, none, some, List, [], ◌∷◌, ◌==◌, ltb, leb, if◌then◌else◌,
  find?, keep, length, take, skip, order_by, Result, ok, err, ◌>>=◌, guard,
}
use check.Problem.Queries.{admits, newer}
use check.Inspection.Defs.{
  Bytes, Status, in_progress, finished, abandoned, InspectionErr, not_found, fault, Row, PointRow,
  Db, Inspection, decode_route, scan_inspection,
}
use check.Inspection.Service.{live, points_of}

-- `ListFilter`
pub record ListFilter : Type 0 where
  pub project_id : Option ℕ
  pub inspector_id : Option ℕ
  pub status : Option Status
  pub since : Option ℕ
  pub until : Option ℕ

abbrev pub same_status : Status → Status → Bool
same_status in_progress in_progress = true
same_status finished finished = true
same_status abandoned abandoned = true
same_status _ _ = false

abbrev pub admits_status : Option Status → Status → Bool
admits_status none status = true
admits_status (some wanted) status = same_status status wanted

module _ {M : Type 0} where
  -- The WHERE clause of `List`.
  abbrev pub matches : ListFilter → Row M → Bool
  matches f r =
      not r.deleted
      && admits f.project_id (λ v. r.project_id == v)
      && admits f.inspector_id (λ v. r.inspector_id == v)
      && admits_status f.status r.status
      && admits f.since (λ v. leb v r.started_at)
      && admits f.until (λ v. ltb r.started_at v)

  -- `ORDER BY started_at DESC, id DESC`
  abbrev pub selected : ListFilter → Db M → List (Row M)
  selected f db =
      order_by (λ a b. newer (a.started_at, a.id) (b.started_at, b.id))
        (keep (matches f) db.inspections.rows)

  abbrev pub scan_sessions :
      {G J : Type 0}
      → (Bytes → Option G)
      → (Bytes → Option J)
      → List (Row M)
      → Result InspectionErr (List (Inspection M G J))
  scan_sessions line json [] = ok []
  scan_sessions line json (r ∷ rs) =
      scan_inspection line json r >>= λ i. scan_sessions line json rs >>= λ is. ok (i ∷ is)

  -- `List`: a page and the count of all that match.
  unfoldable pub list :
      {G J : Type 0}
      → (Bytes → Option G)
      → (Bytes → Option J)
      → (ℕ → Bool)
      → ListFilter
      → ℕ
      → ℕ
      → Db M
      → Result InspectionErr (List (Inspection M G J) × ℕ)
  list line json fail f limit offset db = do
    started ← guard (not (fail 0)) fault
    page ← scan_sessions line json (take limit (skip offset (selected f db)))
    counted ← guard (not (fail 1)) fault
    ok (page, length (keep (matches f) db.inspections.rows))

-- `oapi.TrajectoryPoint`, with the position as `P`.
pub record TrajectoryPoint (P : Type 0) : Type 0 where
  pub id : ℕ
  pub client_uuid : ℕ
  pub inspection_id : ℕ
  pub seq : ℕ
  pub geom : P
  pub recorded_at : ℕ

-- `oapi.Trajectory`
pub record Trajectory (G P : Type 0) : Type 0 where
  pub inspection_id : ℕ
  pub route : Option G
  pub points : List (TrajectoryPoint P)

module _ {P : Type 0} (position : Bytes → Option P) where
  abbrev pub scan_points : List PointRow → Result InspectionErr (List (TrajectoryPoint P))
  scan_points [] = ok []
  scan_points (r ∷ rs) = elim (position r.geom) [
    | none ↦ err fault
    | some p ↦ scan_points rs >>= λ ps. ok (
        record {
          id = r.id;
          client_uuid = r.client_uuid;
          inspection_id = r.inspection_id;
          seq = r.seq;
          geom = p;
          recorded_at = r.recorded_at;
        }
        ∷ ps)
  ]

  abbrev pub with_points :
      {M G : Type 0} → Bool → ℕ → Option G → Db M → Result InspectionErr (Trajectory G P)
  with_points fails id route db =
      if fails
      then err fault
      else scan_points (points_of id db) >>= λ ps.
          ok (record { inspection_id = id; route = route; points = ps })

  -- `Trajectory`
  unfoldable pub trajectory :
      {M G : Type 0}
      → (Bytes → Option G)
      → (ℕ → Bool)
      → ℕ
      → Db M
      → Result InspectionErr (Trajectory G P)
  trajectory line fail id db =
      if fail 0 then err fault else elim (find? (live id) db.inspections.rows) [
        | none ↦ err not_found
        | some r ↦ decode_route line r.route_geom >>= λ route. with_points (fail 1) id route db
      ]
