-- ===== src/Problem/Runs.antt =====
-- The writes of backend/internal/problem/service.go one after another, and what all of them keep. The
-- row lock of `Update` makes each of them one step.
use check.Common.{
  ℕ, suc, ◌<◌, ◌≡◌, refl, ap, String, Bool, true, false, not, ◌||◌, Option, some, List, [], ◌∷◌,
  ◌==◌, str_eq, str_eq_iff, any, All-append, All-map, All-update_where, Serial, Serial-insert,
  Serial-update, Serial-below, Serial-le, Distinct-insert, Distinct-update, arith, Bool-cases,
  Option-cases, Result-cases, inl, inr, ◌⊎◌, find?, found-All, found-passes, ok, with_tx-keeps,
  Table, coalesce, add_row,
}
use check.Problem.Defs.{
  Bytes, fault, Row, LogRow, Db, Problem, CreateInput, UpdateInput, CreateLogInput, scan_problem,
}
use check.Problem.Service.{
  live, contains, valid_client_log_action, status_changed, action_status_change, action_comment,
  action_reassign, revise, retire, change_row, log_change, log_row, operator_of, new_row,
  create_refusal, insert_problem, create, update_refusal, update_body, update, delete, append_log,
  create_log, resolve_dict_version, revise_problems,
}
use check.Problem.Audit.{
  Audited, Consistent, live-id, same_uuid, replay-unseen, Audited-comment, Audited-update,
}

-- A write with its inputs; `fail`, `fresh` and `now` are those of the operation.
pub data Call : Type 0 where
  creates : (ℕ → Bool) → ℕ → ℕ → CreateInput → ℕ → Call
  updates : (ℕ → Bool) → ℕ → ℕ → UpdateInput → ℕ → Call
  deletes : Bool → ℕ → ℕ → ℕ → Call
  logs : (ℕ → Bool) → ℕ → ℕ → CreateLogInput → ℕ → Call

module _ {G : Type 0} (decode : Bytes → Option G) where
  abbrev pub step : Call → Db → Db
  step (creates fail fresh now input actor) db = (create decode fail fresh now input actor db).0
  step (updates fail now id input actor) db = (update decode fail now id input actor db).0
  step (deletes fails now id actor) db = (delete fails now id actor db).0
  step (logs fail now id input actor) db = (create_log fail now id input actor db).0

  abbrev pub run : List Call → Db → Db
  run [] db = db
  run (call ∷ calls) db = run calls (step call db)

  insert_problem-Consistent :
      (fail : ℕ → Bool) (input : CreateInput) (uuid version actor now : ℕ) (db : Db)
      → Consistent db
      → Consistent
          (insert_problem decode fail input uuid (new_row input uuid version actor now) db).0
  insert_problem-Consistent fail input uuid version actor now db (serial, unique, known, audited) =
      elim (Bool-cases (any (λ r. r.client_uuid == uuid) db.problems.rows)) [
        | inl e ↦ elim (Option-cases input.client_uuid) [
          | inl n ↦ rw (e, n) (serial, unique, known, audited)
          | inr (u, n) ↦ rw (e, n) (serial, unique, known, audited)
        ]
        | inr e ↦ elim (Option-cases (create_refusal db input)) [
          | inr (key, n) ↦ rw (e, n) (serial, unique, known, audited)
          | inl n ↦
              let row = new_row input uuid version actor now db.problems.next in
              rw (e, n)
                (
                  Serial-insert Row.id 0 db.problems.next row db.problems.rows refl serial,
                  Distinct-insert same_uuid row db.problems.rows e unique,
                  All-map (λ (l : LogRow). l.problem_id < db.problems.next)
                      (λ l. l.problem_id < suc db.problems.next) db.logs.rows (λ l b. omega arith)
                      known,
                  All-append (Audited db.logs.rows) db.problems.rows (row ∷ []) audited (
                    (
                      input.status_item_id,
                      replay-unseen db.problems.next input.status_item_id db.logs.rows known,
                    ),
                    tt,
                  ),
                )
        ]
      ]

  create-Consistent :
      (fail : ℕ → Bool) (fresh now : ℕ) (input : CreateInput) (actor : ℕ) (db : Db)
      → Consistent db
      → Consistent (create decode fail fresh now input actor db).0
  unfolding create
  create-Consistent fail fresh now input actor db h =
      elim (Result-cases (resolve_dict_version (fail 0) input.dict_version_used db)) [
        | inr (e, v) ↦ rw (v, create) h
        | inl (version, v) ↦ elim (Bool-cases (fail 1)) [
          | inl f ↦ rw (v, f, create) h
          | inr f ↦
              rw (v, f, create)
                (insert_problem-Consistent fail input (coalesce input.client_uuid fresh) version
                  actor now db h)
        ]
      ]

  pub log_change-cases :
      (fails : Bool) (actor now id : ℕ) (current requested : Option ℕ) (db : Db)
      {after : Table LogRow}
      → log_change fails actor now id current requested db ≡ ok after
      → (status_changed requested current ≡ false) × (after ≡ db.logs)
        ⊎ (status_changed requested current ≡ true)
          × (after ≡ add_row (change_row id current requested actor now) db.logs)
  log_change-cases fails actor now id current requested db h =
      elim (Bool-cases (status_changed requested current)) [
        | inr e ↦ inl (e, cc (rw e at h))
        | inl e ↦ elim (Bool-cases (fails || not (contains db.user_ids actor))) [
          | inl f ↦ absurd (cc (rw (e, f) at h))
          | inr f ↦ inr (e, cc (rw (e, f) at h))
        ]
      ]

  -- What an update that succeeds has found and done.
  pub update_body-eq-ok :
      (fail : ℕ → Bool) (now id : ℕ) (input : UpdateInput) (actor : ℕ) (db : Db) {p : Problem G}
      {db' : Db}
      → update_body decode fail now id input actor db ≡ ok (p, db')
      → (r : Row) × (after : Table LogRow) × (find? (live id) db.problems.rows ≡ some r)
        × (scan_problem decode (revise input actor now r) ≡ ok p)
        × (log_change (fail 4) actor now id r.status_item_id input.status_item_id db ≡ ok after)
        × (db' ≡ record db { problems = revise_problems id input actor now db; logs = after })
  unfolding update_body
  update_body-eq-ok fail now id input actor db h = elim (Bool-cases (fail 2)) [
    | inl e ↦ absurd (cc (rw e at h))
    | inr e ↦ elim (Option-cases (find? (live id) db.problems.rows)) [
      | inl n ↦ absurd (cc (rw (e, n) at h))
      | inr (r, n) ↦ elim (Bool-cases (fail 3)) [
        | inl f ↦ absurd (cc (rw (e, n, f) at h))
        | inr f ↦ elim (Option-cases (update_refusal db input)) [
          | inr (key, b) ↦ absurd (cc (rw (e, n, f, b) at h))
          | inl b ↦ elim (Result-cases (scan_problem decode (revise input actor now r))) [
            | inr (e₁, c) ↦ absurd (cc (rw (e, n, f, b, c) at h))
            | inl (q, c) ↦
                elim (Result-cases
                  (log_change (fail 4) actor now id r.status_item_id input.status_item_id db)) [
                    | inr (e₁, d) ↦ absurd (cc (rw (e, n, f, b, c, d) at h))
                    | inl (after, d) ↦
                        let left = rw (e, n, f, b, c, d) at h in (r, after, n, cc, d, cc)
                  ]
          ]
        ]
      ]
    ]
  ]

  revised :
      (now id : ℕ) (input : UpdateInput) (actor : ℕ) (db : Db) (r : Row) (after : Table LogRow)
      → find? (live id) db.problems.rows ≡ some r
      → (status_changed input.status_item_id r.status_item_id ≡ false) × (after ≡ db.logs)
        ⊎ (status_changed input.status_item_id r.status_item_id ≡ true)
          × (after
              ≡ add_row (change_row id r.status_item_id input.status_item_id actor now) db.logs)
      → Consistent db
      → Consistent (record db { problems = revise_problems id input actor now db; logs = after })
  revised now id input actor db r after found cases (serial, unique, known, audited) =
      let next = db.problems.next in
      let entry = change_row id r.status_item_id input.status_item_id actor now db.logs.next in
      let known_id : r.id < next =
        found-All (live id) (λ (x : Row). x.id < next) r db.problems.rows
          (Serial-below Row.id 0 next db.problems.rows serial) found in
      let same_id : r.id ≡ id = live-id id r (found-passes (live id) r db.problems.rows found) in
      (
        Serial-update Row.id 0 next (live id) (revise input actor now) db.problems.rows (λ x. refl)
            serial,
        Distinct-update same_uuid (live id) (revise input actor now) db.problems.rows (λ x y. refl)
            (λ x y. refl) unique,
        elim cases [
          | inl (_, e) ↦ rw e known
          | inr (_, e) ↦ rw e (
              All-append (λ (l : LogRow). l.problem_id < next) db.logs.rows (entry ∷ []) known
                (omega arith, tt))
        ],
        Audited-update id r input actor now next db.logs.next db.problems.rows db.logs.rows
            after.rows found serial
            (elim cases [
              | inl (same, e) ↦ inl (same, ap (λ t. t.rows) e)
              | inr (changed, e) ↦ inr (changed, ap (λ t. t.rows) e)
            ])
            audited,
      )

  update-Consistent :
      (fail : ℕ → Bool) (now id : ℕ) (input : UpdateInput) (actor : ℕ) (db : Db)
      → Consistent db
      → Consistent (update decode fail now id input actor db).0
  unfolding update
  update-Consistent fail now id input actor db h =
      with_tx-keeps fault Consistent db h (fail 0) (fail 1)
        (update_body decode fail now id input actor)
        λ p db' done.
          let (r, after, found, _, logged, e) = update_body-eq-ok fail now id input actor db done in
          rw e (
            revised now id input actor db r after found
              (log_change-cases (fail 4) actor now id r.status_item_id input.status_item_id db
                logged)
              h)

  delete-Consistent :
      (fails : Bool) (now id actor : ℕ) (db : Db)
      → Consistent db
      → Consistent (delete fails now id actor db).0
  unfolding delete
  delete-Consistent fails now id actor db h = elim (Bool-cases fails) [
    | inl e ↦ rw (e, delete) h
    | inr e ↦ elim (Bool-cases (any (live id) db.problems.rows)) [
      | inr n ↦ rw (e, n, delete) h
      | inl n ↦
          let (serial, unique, known, audited) = h in
          rw (e, n, delete)
            (
              Serial-update Row.id 0 db.problems.next (live id) (retire actor now) db.problems.rows
                  (λ x. refl) serial,
              Distinct-update same_uuid (live id) (retire actor now) db.problems.rows (λ x y. refl)
                  (λ x y. refl) unique,
              known,
              All-update_where (Audited db.logs.rows) (Audited db.logs.rows) (live id)
                  (retire actor now) db.problems.rows (λ x a l. a) (λ x a l. a) audited,
            )
    ]
  ]

  append_log-Consistent :
      (fails : Bool) (operator now id : ℕ) (input : CreateLogInput) (db : Db)
      → str_eq input.action action_status_change ≡ false
      → id < db.problems.next
      → Consistent db
      → Consistent (append_log fails operator (log_row input id operator now) db).0
  append_log-Consistent fails operator now id input db other below h = elim (Bool-cases fails) [
    | inl e ↦ rw e h
    | inr e ↦ elim (Bool-cases (contains db.user_ids operator)) [
      | inr n ↦ rw (e, n) h
      | inl n ↦
          let (serial, unique, known, audited) = h in
          let row = log_row input id operator now db.logs.next in
          rw (e, n)
            (
              serial,
              unique,
              All-append (λ (l : LogRow). l.problem_id < db.problems.next) db.logs.rows (row ∷ [])
                  known (below, tt),
              Audited-comment row db.logs.rows db.problems.rows other audited,
            )
    ]
  ]

  no_status_change :
      (action : String)
      → valid_client_log_action action ≡ true
      → str_eq action action_status_change ≡ false
  no_status_change action h = elim (Bool-cases (str_eq action action_comment)) [
    | inl e ↦
        let same : action ≡ action_comment = (str_eq_iff action action_comment).0 e in rw same refl
    | inr e ↦ elim (Bool-cases (str_eq action action_reassign)) [
      | inl f ↦
          let same : action ≡ action_reassign = (str_eq_iff action action_reassign).0 f in
          rw same refl
      | inr f ↦ absurd (cc (rw (e, f) at h))
    ]
  ]

  any-live-below :
      (id lo next : ℕ) (rows : List Row)
      → Serial Row.id lo next rows
      → any (live id) rows ≡ true
      → id < next
  any-live-below id lo next [] s h = absurd (cc)
  any-live-below id lo next (r ∷ rows) s h = elim (Bool-cases (live id r)) [
    | inl e ↦ omega (arith, live-id id r e, Serial-le Row.id (suc r.id) next rows s.1)
    | inr e ↦ any-live-below id (suc r.id) next rows s.1 (rw e at h)
  ]

  create_log-Consistent :
      (fail : ℕ → Bool) (now id : ℕ) (input : CreateLogInput) (actor : ℕ) (db : Db)
      → Consistent db
      → Consistent (create_log fail now id input actor db).0
  unfolding create_log
  create_log-Consistent fail now id input actor db h =
      elim (Bool-cases (valid_client_log_action input.action)) [
        | inr e ↦ rw (e, create_log) h
        | inl e ↦ elim (Bool-cases (fail 0)) [
          | inl f ↦ rw (e, f, create_log) h
          | inr f ↦ elim (Bool-cases (any (live id) db.problems.rows)) [
            | inr n ↦ rw (e, f, n, create_log) h
            | inl n ↦
                rw (e, f, n, create_log)
                  (append_log-Consistent (fail 1) (operator_of input.operator_id actor) now id input
                    db (no_status_change input.action e)
                    (any-live-below id 0 db.problems.next db.problems.rows h.0 n) h)
          ]
        ]
      ]

  step-Consistent : (call : Call) (db : Db) → Consistent db → Consistent (step call db)
  step-Consistent (creates fail fresh now input actor) db =
      create-Consistent fail fresh now input actor db
  step-Consistent (updates fail now id input actor) db =
      update-Consistent fail now id input actor db
  step-Consistent (deletes fails now id actor) db = delete-Consistent fails now id actor db
  step-Consistent (logs fail now id input actor) db =
      create_log-Consistent fail now id input actor db

  -- Whatever is created, updated, deleted and commented: the ids and the client UUIDs of the problems
  -- stay unique, and the status changes in a problem's log, each of them from the status that the one
  -- before it led to and to another one, lead to the status that the problem has.
  pub run-Consistent : (calls : List Call) (db : Db) → Consistent db → Consistent (run calls db)
  run-Consistent [] db h = h
  run-Consistent (call ∷ calls) db h =
      run-Consistent calls (step call db) (step-Consistent call db h)
