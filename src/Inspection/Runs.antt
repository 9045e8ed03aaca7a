-- ===== src/Inspection/Runs.antt =====
-- What any run of starts and finishes (backend/internal/inspection/service.go) keeps of the sessions.
use check.Common.{
  ℕ, String, update_where, subst, found-passes, ◌≡◌, refl, inl, inr, ◌<◌, ◌≤◌, Bool, true, false,
  ◌==◌, Option, none, some, List, [], ◌∷◌, ltb, leb, find?, any, length, ok, with_tx-keeps,
  coalesce, Bool-cases, Option-cases, Result-cases, All, All-append, All-pair, All-update_where,
  Serial, Serial-insert, Serial-update, Serial-one, arith,
}
use check.Inspection.Defs.{
  Bytes, Status, in_progress, finished, abandoned, fault, Row, PointRow, Db, Inspection,
  scan_inspection, StartInput, FinishInput,
}
use check.Inspection.Service.{
  is_in_progress, live, points_of, fk_violation, new_row, insert_session, marshal_device, start,
  target_of, route_of, mileage_of, close, close_row, finish_row, finish_body, finish,
}

-- A call of one of the operations that write, with what its surroundings answer.
pub data Call (J : Type 0) : Type 0 where
  starts : (J → Option Bytes) → (ℕ → Bool) → ℕ → StartInput J → ℕ → Call J
  finishes : (ℕ → Bool) → ℕ → ℕ → FinishInput → ℕ → Call J

live-id : {M : Type 0} (id : ℕ) (r : Row M) → live id r ≡ true → r.id ≡ id
live-id id r e = ground arith

module _ {M G J : Type 0} (zero_m : M) (line : Bytes → Option G) (json : Bytes → Option J)
    (make_line : List Bytes → Bytes) (length_of : Bytes → M) where
  abbrev pub step : Call J → Db M → Db M
  step (starts marshal fail fresh input actor) db =
      (start zero_m line json marshal fail fresh input actor db).0
  step (finishes fail now id input actor) db =
      (finish zero_m line json make_line length_of fail now id input actor db).0

  abbrev pub run : List (Call J) → Db M → Db M
  run [] db = db
  run (call ∷ calls) db = run calls (step call db)

  -- A session has a route exactly when it has two points, and its mileage is the route's.
  abbrev pub Measured : Option Bytes → ℕ → M → Type 0
  Measured none n m = (n < 2) × (m ≡ zero_m)
  Measured (some route) n m = (2 ≤ n) × (m ≡ length_of route)

  abbrev pub EndsAfter : ℕ → Option ℕ → Type 0
  EndsAfter since none = ⊥
  EndsAfter since (some ended) = since ≤ ended

  abbrev pub Closed : Row M → Type 0
  Closed r =
      EndsAfter r.started_at r.ended_at × Measured r.route_geom r.point_count r.mileage_meters

  abbrev pub Fits : Status → Row M → Type 0
  Fits in_progress r = (r.ended_at ≡ none) × (r.route_geom ≡ none) × (r.point_count ≡ 0)
  Fits finished r = Closed r
  Fits abandoned r = Closed r

  abbrev pub Settled : Db M → Type 0
  Settled db =
      Serial Row.id 0 db.inspections.next db.inspections.rows
      × All (λ r. Fits r.status r) db.inspections.rows

  route_of-Measured :
      (ps : List PointRow)
      → Measured (route_of zero_m line json make_line length_of ps) (length ps) (
          mileage_of zero_m line json make_line length_of
            (route_of zero_m line json make_line length_of ps))
  route_of-Measured ps = elim (Bool-cases (leb 2 (length ps))) [
    | inl e ↦ rw e (ground arith, refl)
    | inr e ↦ rw e (ground arith, refl)
  ]

  close-Fits :
      (ps : List PointRow) (discard : Bool) (ended : ℕ) (remark : Option String) (actor : ℕ)
      (r : Row M)
      → r.started_at ≤ ended
      → Fits
          (target_of discard)
          (close zero_m line json make_line length_of ps (target_of discard) ended remark actor r)
  close-Fits ps false ended remark actor r h = (h, route_of-Measured ps)
  close-Fits ps true ended remark actor r h = (h, route_of-Measured ps)

  insert_session-Settled :
      (fail : ℕ → Bool) (input : StartInput J) (device : Bytes) (uuid actor : ℕ) (db : Db M)
      → Settled db
      → Settled (insert_session zero_m line json fail input device uuid actor db).0
  insert_session-Settled fail input device uuid actor db h =
      elim (Bool-cases (any (λ r. r.client_uuid == uuid) db.inspections.rows)) [
        | inl e ↦ elim (Option-cases input.client_uuid) [
          | inl n ↦ rw (e, n) h
          | inr (given, n) ↦ rw (e, n) h
        ]
        | inr e ↦
            elim (Option-cases
              (fk_violation input.project_id input.task_id input.inspector_id db)) [
                | inr (k, v) ↦ rw (e, v) h
                | inl v ↦
                    rw (e, v)
                      (
                        Serial-insert Row.id 0 db.inspections.next
                            (new_row zero_m line json input device uuid actor db.inspections.next)
                            db.inspections.rows refl h.0,
                        All-append (λ r. Fits r.status r) db.inspections.rows
                            (new_row zero_m line json input device uuid actor db.inspections.next
                              ∷ [])
                            h.1 ((refl, refl, refl), tt),
                      )
              ]
      ]

  start-Settled :
      (marshal : J → Option Bytes) (fail : ℕ → Bool) (fresh : ℕ) (input : StartInput J) (actor : ℕ)
      (db : Db M)
      → Settled db
      → Settled (start zero_m line json marshal fail fresh input actor db).0
  unfolding start
  start-Settled marshal fail fresh input actor db h =
      elim (Option-cases (marshal_device marshal (123 ∷ 125 ∷ []) input.device_info)) [
        | inl n ↦ rw (n, start) h
        | inr (device, n) ↦ elim (Bool-cases (fail 0)) [
          | inl f ↦ rw (n, f, start) h
          | inr f ↦
              rw (n, f, start)
                (insert_session-Settled fail input device (coalesce input.client_uuid fresh) actor
                  db h)
        ]
      ]

  -- The update of the row that was found.
  closed :
      (discard : Bool) (ps : List PointRow) (id ended : ℕ) (remark : Option String) (actor : ℕ)
      (r : Row M) (rows : List (Row M)) (next : ℕ)
      → r.started_at ≤ ended
      → find? (live id) rows ≡ some r
      → Serial Row.id 0 next rows
      → All (λ x. Fits x.status x) rows
      → All
          (λ x. Fits x.status x)
          (update_where
            (λ x. x.id == r.id)
            (close zero_m line json make_line length_of ps (target_of discard) ended remark actor)
            rows)
  closed discard ps id ended remark actor r rows next late found serial h =
      let is : r.id ≡ id = live-id id r (found-passes (live id) r rows found) in
      All-update_where (λ x. Fits x.status x × (x.id ≡ id → x ≡ r)) (λ x. Fits x.status x)
        (λ x. x.id == r.id)
        (close zero_m line json make_line length_of ps (target_of discard) ended remark actor) rows
        (λ x k e.
          let same : x ≡ r = k.1 (ground arith) in
          let late' : x.started_at ≤ ended = rw same late in
          close-Fits ps discard ended remark actor x late')
        (λ x k e. k.0)
        (All-pair (λ x. Fits x.status x) (λ x. x.id ≡ id → x ≡ r) rows h
          (Serial-one Row.id id 0 next (live id) r rows (live-id id) serial found))

  close_row-Settled :
      (fails discard : Bool) (ps : List PointRow) (id ended : ℕ) (remark : Option String)
      (actor : ℕ) (r : Row M) (db : Db M)
      → r.started_at ≤ ended
      → find? (live id) db.inspections.rows ≡ some r
      → Settled db
      → (insp : Inspection M G J) (db' : Db M)
      → close_row zero_m line json make_line length_of fails
          (close zero_m line json make_line length_of ps (target_of discard) ended remark actor)
          r
          db
        ≡ ok (insp, db')
      → Settled db'
  close_row-Settled true discard ps id ended remark actor r db late found h insp db' e = absurd (cc)
  close_row-Settled false discard ps id ended remark actor r db late found h insp db' e =
      let change =
        close zero_m line json make_line length_of ps (target_of discard) ended remark actor in
      elim (Result-cases (scan_inspection line json (change r))) [
        | inr (k, n) ↦ absurd (cc (rw n at e))
        | inl (i, n) ↦
            let after = record db {
              inspections = record db.inspections {
                rows = update_where (λ x. x.id == r.id) change db.inspections.rows;
              };
            } in
            let same : after ≡ db' = cc (rw n at e) in
            subst Settled same (
              Serial-update Row.id 0 db.inspections.next (λ x. x.id == r.id) change
                  db.inspections.rows (λ x. refl) h.0,
              closed discard ps id ended remark actor r db.inspections.rows db.inspections.next late
                  found h.0 h.1,
            )
      ]

  finish_row-Settled :
      (fails : Bool) (now id : ℕ) (input : FinishInput) (actor : ℕ) (r : Row M) (db : Db M)
      → find? (live id) db.inspections.rows ≡ some r
      → Settled db
      → (insp : Inspection M G J) (db' : Db M)
      → finish_row zero_m line json make_line length_of fails now input actor r db ≡ ok (insp, db')
      → Settled db'
  unfolding finish_row
  finish_row-Settled fails now id input actor r db found h insp db' e =
      elim (Bool-cases (is_in_progress r.status)) [
        | inr n ↦ absurd (cc (rw (n, finish_row) at e))
        | inl n ↦ elim (Bool-cases (ltb (coalesce input.ended_at now) r.started_at)) [
          | inl t ↦ absurd (cc (rw (n, t, finish_row) at e))
          | inr t ↦
              close_row-Settled fails input.discard (points_of r.id db) id
                (coalesce input.ended_at now) input.note actor r db (ground arith) found h insp db'
                (rw (n, t, finish_row) at e)
        ]
      ]

  finish_body-Settled :
      (fail : ℕ → Bool) (now id : ℕ) (input : FinishInput) (actor : ℕ) (db : Db M)
      → Settled db
      → (insp : Inspection M G J) (db' : Db M)
      → finish_body zero_m line json make_line length_of fail now id input actor db ≡ ok (insp, db')
      → Settled db'
  finish_body-Settled fail now id input actor db h insp db' e = elim (Bool-cases (fail 1)) [
    | inl f ↦ absurd (cc (rw f at e))
    | inr f ↦ elim (Option-cases (find? (live id) db.inspections.rows)) [
      | inl n ↦ absurd (cc (rw (f, n) at e))
      | inr (r, n) ↦
          finish_row-Settled (fail 2) now id input actor r db n h insp db' (rw (f, n) at e)
    ]
  ]

  step-Settled : (call : Call J) (db : Db M) → Settled db → Settled (step call db)
  unfolding finish
  step-Settled (starts marshal fail fresh input actor) db h =
      start-Settled marshal fail fresh input actor db h
  step-Settled (finishes fail now id input actor) db h =
      with_tx-keeps fault Settled db h (fail 0) (fail 3)
        (finish_body zero_m line json make_line length_of fail now id input actor)
        (finish_body-Settled fail now id input actor db h)

  -- Whatever sessions are started and finished, in any order and whatever fails on the way, and for
  -- whatever codecs, `ST_MakeLine` and `ST_Length`: the ids stay unique; a session in progress has no end,
  -- no route and no points counted; a finished or abandoned one has an end that is not before its start,
  -- and either fewer than two points, no route and no mileage, or a route and the length of this route as
  -- its mileage.
  pub run-Settled : (calls : List (Call J)) (db : Db M) → Settled db → Settled (run calls db)
  run-Settled [] db h = h
  run-Settled (call ∷ calls) db h = run-Settled calls (step call db) (step-Settled call db h)
