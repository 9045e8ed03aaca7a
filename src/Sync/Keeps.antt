-- ===== src/Sync/Keeps.antt =====
-- Every handler, and so every batch, keeps the tables sound, whatever calls the database fails.
use check.Common.{
  ℕ, suc, ◌≡◌, refl, Bool, true, false, not, Option, List, [], ◌∷◌, Result, ok, err, Result-cases,
  inl, inr, Option-cases, with_savepoint-keeps,
}
use check.Sync.Defs.{
  Bytes, SpErr, other_fault, Reason, Table, Inspection, Point, Problem, Media, Db, BatchState,
}
use check.Sync.Items.{
  InspectionItem, PointItem, ProblemItem, MediaItem, Handler, problem_row, inspection_body,
  upsert_inspection, inspection_done, point_body, upsert_trajectory_point, plain_done, problem_body,
  upsert_problem, problem_done, media_body, upsert_media, as_seq_conflict, point_ewkb, check_geom,
  resolve_inspection, resolve_parent, resolve_dict_version, resolve_media_owner, insert_inspection,
  insert_point, insert_problem, insert_media,
}
use check.Sync.Batch.{BatchRequest, run_section, run_batch, process, empty_state}
use check.Sync.Sound.{
  IsSound, upsert-cases, add-inspection, add-point, add-problem, add-media, key_free,
}

-- What a handler leaves, whatever its result, is what its savepoint leaves.
inspection_done-db :
    (uuid : ℕ) (st : BatchState) (x : Db × Result SpErr (ℕ × Bool))
    → (inspection_done uuid st x).0 ≡ x.0
inspection_done-db uuid st (db, err e) = refl
inspection_done-db uuid st (db, ok (id, b)) = refl

problem_done-db :
    (uuid : ℕ) (st : BatchState) (x : Db × Result SpErr (ℕ × Bool))
    → (problem_done uuid st x).0 ≡ x.0
problem_done-db uuid st (db, err e) = refl
problem_done-db uuid st (db, ok (id, b)) = refl

plain_done-db :
    (reason : SpErr → Reason) (uuid : ℕ) (st : BatchState) (x : Db × Result SpErr (ℕ × Bool))
    → (plain_done reason uuid st x).0 ≡ x.0
plain_done-db reason uuid st (db, err e) = refl
plain_done-db reason uuid st (db, ok (id, b)) = refl

pub as_seq_conflict-ok :
    {A : Type 0} (r : Result SpErr A) (a : A) → as_seq_conflict r ≡ ok a → r ≡ ok a
as_seq_conflict-ok (ok b) a h = h
as_seq_conflict-ok (err SpErr.unique_violation) a h = cc
as_seq_conflict-ok (err _) a h = cc

module _ (db : Db) (w : IsSound db) where
  inspection_body-IsSound :
      (fail : ℕ → Bool) (item : InspectionItem) (actor : ℕ) (r : ℕ × Bool) (db' : Db)
      → inspection_body fail item actor db ≡ ok (r, db')
      → IsSound db'
  unfolding inspection_body
  inspection_body-IsSound fail item actor r db' h =
      elim (Result-cases (insert_inspection fail item actor db)) [
        | inr (e, u) ↦ cc (rw u at h)
        | inl ((q, t), u) ↦
            let same : db' ≡ record db { inspections = t } = cc (rw u at h) in
            elim (upsert-cases Inspection.id Inspection.client_uuid (λ _. true) _ _ _ _ _ _ _ t q
              u) [
                | inl old ↦ rw (same, old) w
                | inr new ↦ rw (same, new.0) (add-inspection db w item actor new.1)
              ]
      ]

  media_body-IsSound :
      (fail : ℕ → Bool) (item : MediaItem) (actor : ℕ) (st : BatchState) (r : ℕ × Bool) (db' : Db)
      → media_body fail item actor st db ≡ ok (r, db')
      → IsSound db'
  unfolding media_body
  media_body-IsSound fail item actor st r db' h =
      elim (Result-cases
        (resolve_media_owner (fail 2) item.owner_type item.owner_client_uuid db st)) [
          | inr (e, o) ↦ cc (rw o at h)
          | inl (owner_id, o) ↦ elim (Result-cases (insert_media fail item actor db owner_id)) [
            | inr (e, u) ↦ cc (rw (o, u) at h)
            | inl ((q, t), u) ↦
                let same : db' ≡ record db { media = t } = cc (rw (o, u) at h) in
                elim (upsert-cases Media.id Media.client_uuid (λ m. not m.deleted) _ _ _ _ _ _ _ t q
                  u) [
                    | inl old ↦ rw (same, old) w
                    | inr new ↦
                        rw (same, new.0)
                          (add-media db w item actor owner_id new.1 (key_free db w item new.2))
                  ]
          ]
        ]

  -- A trajectory point or a problem whose checks passed.
  insert_point-IsSound :
      (fail : ℕ → Bool) (item : PointItem) (geom : Bytes) (id : ℕ) (q : ℕ × Bool) (t : Table Point)
      → as_seq_conflict (insert_point fail item geom db id) ≡ ok (q, t)
      → IsSound (record db { points = t })
  insert_point-IsSound fail item geom id q t u =
      elim (upsert-cases Point.id Point.client_uuid (λ _. true) _ _ _ _ _ _ _ t q
        (as_seq_conflict-ok (insert_point fail item geom db id) (q, t) u)) [
          | inl old ↦ rw old w
          | inr new ↦ rw (new.0) (add-point db w item id geom new.1 new.2)
        ]

  insert_problem-IsSound :
      (fail : ℕ → Bool) (item : ProblemItem) (actor : ℕ) (geom : Bytes) (id : Option ℕ)
      (version : ℕ) (q : ℕ × Bool) (t : Table Problem)
      → insert_problem fail item actor geom db id version ≡ ok (q, t)
      → IsSound (record db { problems = t })
  insert_problem-IsSound fail item actor geom id version q t u =
      elim (upsert-cases Problem.id Problem.client_uuid (λ p. not p.deleted) _ _ _ _ _ _ _ t q u) [
        | inl old ↦ rw old w
        | inr new ↦
            rw (new.0) (
              add-problem db w (problem_row item actor id geom version) item.client_uuid refl new.1)
      ]

  module _ (encode : ℕ → ℕ → Option Bytes) (valid_geom : Bytes → Bool) where
    point_body-IsSound :
        (fail : ℕ → Bool) (item : PointItem) (geom : Bytes) (st : BatchState) (r : ℕ × Bool)
        (db' : Db)
        → point_body encode valid_geom fail item geom st db ≡ ok (r, db')
        → IsSound db'
    unfolding point_body
    point_body-IsSound fail item geom st r db' h =
        elim (Result-cases (resolve_inspection (fail 2) item.inspection_client_uuid db st)) [
          | inr (e, o) ↦ cc (rw o at h)
          | inl (id, o) ↦ elim (Result-cases (check_geom encode valid_geom (fail 3) geom)) [
            | inr (e, g) ↦ cc (rw (o, g) at h)
            | inl (_, g) ↦
                elim (Result-cases (as_seq_conflict (insert_point fail item geom db id))) [
                  | inr (e, u) ↦ cc (rw (o, g, u) at h)
                  | inl ((q, t), u) ↦
                      let same : db' ≡ record db { points = t } = cc (rw (o, g, u) at h) in
                      rw same (insert_point-IsSound fail item geom id q t u)
                ]
          ]
        ]

    problem_body-IsSound :
        (fail : ℕ → Bool) (item : ProblemItem) (actor : ℕ) (geom : Bytes) (st : BatchState)
        (r : ℕ × Bool) (db' : Db)
        → problem_body encode valid_geom fail item actor geom st db ≡ ok (r, db')
        → IsSound db'
    unfolding problem_body
    problem_body-IsSound fail item actor geom st r db' h =
        elim (Result-cases (resolve_parent (fail 2) item.inspection_client_uuid db st)) [
          | inr (e, o) ↦ cc (rw o at h)
          | inl (id, o) ↦
              elim (Result-cases (resolve_dict_version (fail 3) item.dict_version_used db)) [
                | inr (e, v) ↦ cc (rw (o, v) at h)
                | inl (version, v) ↦
                    elim (Result-cases (check_geom encode valid_geom (fail 4) geom)) [
                      | inr (e, g) ↦ cc (rw (o, v, g) at h)
                      | inl (_, g) ↦
                          elim (Result-cases (insert_problem fail item actor geom db id version)) [
                            | inr (e, u) ↦ cc (rw (o, v, g, u) at h)
                            | inl ((q, t), u) ↦
                                let same : db' ≡ record db { problems = t } =
                                  cc (rw (o, v, g, u) at h) in
                                rw same
                                  (insert_problem-IsSound fail item actor geom id version q t u)
                          ]
                    ]
              ]
        ]

abbrev HandlerKeeps : {A : Type 0} → (A → Handler) → Type 0
HandlerKeeps {A} handle =
    (item : A) (db : Db) (st : BatchState) → IsSound db → IsSound (handle item db st).0

upsert_inspection-IsSound :
    (fail : ℕ → Bool) (actor : ℕ) → HandlerKeeps (λ item. upsert_inspection fail item actor)
unfolding upsert_inspection
upsert_inspection-IsSound fail actor item db st w = rw inspection_done-db (
    with_savepoint-keeps other_fault IsSound db w (fail 0) (fail 1)
      (inspection_body fail item actor)
      (λ r db' h. inspection_body-IsSound db w fail item actor r db' h))

upsert_media-IsSound :
    (fail : ℕ → Bool) (actor : ℕ) → HandlerKeeps (λ item. upsert_media fail item actor)
unfolding upsert_media
upsert_media-IsSound fail actor item db st w = rw plain_done-db (
    with_savepoint-keeps other_fault IsSound db w (fail 0) (fail 1) (media_body fail item actor st)
      (λ r db' h. media_body-IsSound db w fail item actor st r db' h))

run_section-IsSound :
    {A : Type 0} (handle : (ℕ → Bool) → A → Handler) (fail : ℕ → ℕ → Bool) (n : ℕ) (items : List A)
    (db : Db) (st : BatchState)
    → ((f : ℕ → Bool) → HandlerKeeps (handle f))
    → IsSound db
    → IsSound (run_section handle fail n items db st).0
unfolding run_section
run_section-IsSound handle fail n [] db st keep w = w
run_section-IsSound handle fail n (item ∷ items) db st keep w =
    run_section-IsSound handle fail (suc n) items (handle (fail n) item db st).0
      (handle (fail n) item db st).1 keep (keep (fail n) item db st w)

module _ (encode : ℕ → ℕ → Option Bytes) (valid_geom : Bytes → Bool) where
  upsert_trajectory_point-IsSound :
      (fail : ℕ → Bool) → HandlerKeeps (upsert_trajectory_point encode valid_geom fail)
  unfolding upsert_trajectory_point
  upsert_trajectory_point-IsSound fail item db st w =
      elim (Option-cases (point_ewkb encode valid_geom item.coordinates)) [
        | inl n ↦ rw (n, upsert_trajectory_point) w
        | inr (geom, g) ↦
            rw (g, upsert_trajectory_point, plain_done-db)
              (with_savepoint-keeps other_fault IsSound db w (fail 0) (fail 1)
                (point_body encode valid_geom fail item geom st)
                (λ r db' h. point_body-IsSound db w encode valid_geom fail item geom st r db' h))
      ]

  upsert_problem-IsSound :
      (fail : ℕ → Bool) (actor : ℕ)
      → HandlerKeeps (λ item. upsert_problem encode valid_geom fail item actor)
  unfolding upsert_problem
  upsert_problem-IsSound fail actor item db st w =
      elim (Option-cases (point_ewkb encode valid_geom item.coordinates)) [
        | inl n ↦ rw (n, upsert_problem) w
        | inr (geom, g) ↦
            rw (g, upsert_problem, problem_done-db)
              (with_savepoint-keeps other_fault IsSound db w (fail 0) (fail 1)
                (problem_body encode valid_geom fail item actor geom st)
                (λ r db' h.
                  problem_body-IsSound db w encode valid_geom fail item actor geom st r db' h))
      ]

  run_batch-IsSound :
      (fail : ℕ → ℕ → ℕ → Bool) (req : BatchRequest) (actor : ℕ) (db : Db)
      → IsSound db
      → IsSound (run_batch encode valid_geom fail req actor db).0
  unfolding run_batch
  run_batch-IsSound fail req actor db w =
      run_section-IsSound (λ f item. upsert_media f item actor) (fail 3) 0 req.media _ _
        (λ f. upsert_media-IsSound f actor)
        (run_section-IsSound (λ f item. upsert_problem encode valid_geom f item actor) (fail 2) 0
          req.problems _ _ (λ f. upsert_problem-IsSound f actor)
          (run_section-IsSound (upsert_trajectory_point encode valid_geom) (fail 1) 0
            req.trajectory_points _ _ (λ f. upsert_trajectory_point-IsSound f)
            (run_section-IsSound (λ f item. upsert_inspection f item actor) (fail 0) 0
              req.inspections db empty_state (λ f. upsert_inspection-IsSound f actor) w)))

  -- From sound tables, whatever a batch holds and whatever calls the database fails, the tables
  -- stay sound: client UUIDs, (inspection, seq) pairs and (bucket, key) pairs stay unique, and
  -- every trajectory point belongs to an inspection of the table.
  pub process-IsSound :
      (begin_fails commit_fails : Bool) (fail : ℕ → ℕ → ℕ → Bool) (req : BatchRequest) (actor : ℕ)
      (db : Db)
      → IsSound db
      → IsSound (process encode valid_geom begin_fails commit_fails fail req actor db).0
  unfolding process
  process-IsSound true c fail req actor db w = w
  process-IsSound false true fail req actor db w = w
  process-IsSound false false fail req actor db w = run_batch-IsSound fail req actor db w
