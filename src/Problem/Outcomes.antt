-- ===== src/Problem/Outcomes.antt =====
-- What a creation, repeated or not, and an update report and leave.
use check.Common.{
  ℕ, subst, ◌≡◌, refl, ap, sym, ◌∙◌, Bool, true, false, Option, none, some, ◌==◌, ==_refl,
  if◌then◌else◌, any, any-insert_new, insert_row, update_where, Bool-cases, Option-cases,
  Result-cases, inl, inr, ◌⊎◌, find?, ok, err, with_tx_atomic, with_tx-eq-ok, coalesce,
}
use check.Problem.Defs.{
  Bytes, ProblemErr, fault, Row, Db, Problem, CreateInput, UpdateInput, scan_problem,
}
use check.Problem.Service.{
  live, status_changed, revise, change_row, create_refusal, insert_problem, create, update_body,
  update, get_by_client_uuid, resolve_dict_version, new_row,
}
use check.Problem.Runs.{log_change-cases, update_body-eq-ok}

resolved :
    (supplied : Option ℕ) (db : Db) → (v : ℕ) × (resolve_dict_version false supplied db ≡ ok v)
unfolding resolve_dict_version
resolved none db = (_, refl)
resolved (some v) db = (v, refl)

module _ {G : Type 0} (decode : Bytes → Option G) where
  -- An update that reports an error has changed nothing. One that reports a problem has found a live
  -- row with the id, has set the requested columns of the live rows with the id and of no others, reports
  -- the revised row, and has appended to the log nothing but, where the status really changes, one row:
  -- the change from the status before to the requested one by the acting user.
  pub update-cases :
      (fail : ℕ → Bool) (now id : ℕ) (input : UpdateInput) (actor : ℕ) (db : Db)
      → let out = update decode fail now id input actor db in
        ((e : ProblemErr) × (out.1 ≡ err e) × (out.0 ≡ db))
        ⊎ ((p : Problem G) × (r : Row) × (out.1 ≡ ok p)
            × (find? (live id) db.problems.rows ≡ some r)
            × (scan_problem decode (revise input actor now r) ≡ ok p)
            × (out.0.problems.rows
                ≡ update_where (live id) (revise input actor now) db.problems.rows)
            × (out.0.logs.rows ≡ (
                if status_changed input.status_item_id r.status_item_id
                then insert_row
                    (change_row id r.status_item_id input.status_item_id actor now db.logs.next)
                    db.logs.rows
                else db.logs.rows)))
  unfolding update
  update-cases fail now id input actor db =
      let body = update_body decode fail now id input actor in
      elim (Result-cases (update decode fail now id input actor db).1) [
        | inr (e, h) ↦ inl (e, h, with_tx_atomic (fail 0) (fail 1) fault body db h)
        | inl (p, h) ↦
            let (r, after, found, scanned, logged, e) =
              update_body-eq-ok decode fail now id input actor db
                (with_tx-eq-ok (fail 0) (fail 1) fault body db h) in
            inr (
              p,
              r,
              h,
              found,
              scanned,
              ap (λ (d : Db). d.problems.rows) e,
              ap (λ (d : Db). d.logs.rows) e
                  ∙ elim (log_change-cases decode (fail 4) actor now id r.status_item_id
                      input.status_item_id db logged) [
                        | inl (same, l) ↦ rw (same, l) refl
                        | inr (changed, l) ↦ rw (changed, l) refl
                      ],
            )
      ]

  -- What a creation that reports a problem has left: a row with its client UUID, and the problem that the
  -- read by this UUID finds.
  inserted :
      (fail : ℕ → Bool) (input : CreateInput) (uuid version actor now : ℕ) (db : Db) (p : Problem G)
      → let out = insert_problem decode fail input uuid (new_row input uuid version actor now) db in
        input.client_uuid ≡ some uuid
        → out.1 ≡ ok p
        → (any (λ r. r.client_uuid == uuid) out.0.problems.rows ≡ true)
          × (get_by_client_uuid decode false uuid out.0 ≡ ok p)
  unfolding get_by_client_uuid
  inserted fail input uuid version actor now db p given h =
      elim (Bool-cases (any (λ r. r.client_uuid == uuid) db.problems.rows)) [
        | inl e ↦ elim (Bool-cases (fail 2)) [
          | inl f ↦ absurd (cc (rw (e, given, f, get_by_client_uuid) at h))
          | inr f ↦ rw (e, given) (e, rw (e, given, f, get_by_client_uuid) at h)
        ]
        | inr e ↦ elim (Option-cases (create_refusal db input)) [
          | inr (key, n) ↦ absurd (cc (rw (e, n) at h))
          | inl n ↦ elim (Bool-cases (fail 2)) [
            | inl f ↦ absurd (cc (rw (e, n, f, get_by_client_uuid) at h))
            | inr f ↦
                rw (e, n)
                  (
                    any-insert_new (λ r. r.client_uuid == uuid)
                        (new_row input uuid version actor now db.problems.next) db.problems.rows
                        (==_refl uuid),
                    rw (e, n, f, get_by_client_uuid) at h,
                  )
          ]
        ]
      ]

  repeated :
      (fresh now actor uuid : ℕ) (input : CreateInput) (db : Db) (p : Problem G)
      → input.client_uuid ≡ some uuid
      → any (λ r. r.client_uuid == uuid) db.problems.rows ≡ true
      → get_by_client_uuid decode false uuid db ≡ ok p
      → create decode (λ _. false) fresh now input actor db ≡ (db, ok p)
  unfolding create
  repeated fresh now actor uuid input db p given known got =
      let (version, v) = resolved input.dict_version_used db in
      rw (v, given, known, got, create) refl

  created :
      (fail : ℕ → Bool) (fresh now actor uuid : ℕ) (input : CreateInput) (db : Db) (p : Problem G)
      → let out = create decode fail fresh now input actor db in
        input.client_uuid ≡ some uuid
        → out.1 ≡ ok p
        → (any (λ r. r.client_uuid == uuid) out.0.problems.rows ≡ true)
          × (get_by_client_uuid decode false uuid out.0 ≡ ok p)
  unfolding create
  created fail fresh now actor uuid input db p given h =
      elim (Result-cases (resolve_dict_version (fail 0) input.dict_version_used db)) [
        | inr (e, v) ↦ absurd (cc (rw (v, create) at h))
        | inl (version, v) ↦ elim (Bool-cases (fail 1)) [
          | inl f ↦ absurd (cc (rw (v, f, create) at h))
          | inr f ↦
              let slot = coalesce input.client_uuid fresh in
              let same : slot ≡ uuid = rw given refl in
              subst
                (λ u.
                  (any (λ r. r.client_uuid == u)
                      (create decode fail fresh now input actor db).0.problems.rows
                    ≡ true)
                  × (get_by_client_uuid decode false u
                        (create decode fail fresh now input actor db).0
                      ≡ ok p))
                same
                (rw (v, f, create)
                  (inserted fail input slot version actor now db p (given ∙ ap some (sym same))
                    (rw (v, f, create) at h)))
        ]
      ]

  -- Creating again with the client UUID of a creation that reported a problem, whatever the rest of the
  -- request and whoever sends it, changes nothing and reports the same problem, if the database answers
  -- the second time.
  pub create-again :
      (fail : ℕ → Bool) (fresh fresh' now now' actor actor' uuid : ℕ) (input input' : CreateInput)
      (db : Db) (p : Problem G)
      → input.client_uuid ≡ some uuid
      → input'.client_uuid ≡ some uuid
      → (create decode fail fresh now input actor db).1 ≡ ok p
      → let after = (create decode fail fresh now input actor db).0 in
        create decode (λ _. false) fresh' now' input' actor' after ≡ (after, ok p)
  create-again fail fresh fresh' now now' actor actor' uuid input input' db p given given' h =
      let (known, got) = created fail fresh now actor uuid input db p given h in
      repeated fresh' now' actor' uuid input' (create decode fail fresh now input actor db).0 p
        given' known got
