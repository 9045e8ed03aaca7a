-- ===== src/Sync/Replay.antt =====
-- The replay of an item: its client UUID makes a second delivery find the row of the first.
use check.Common.{
  ℕ, ◌≡◌, refl, Bool, true, false, ◌&&◌, Option, some, List, [], ◌∷◌, ◌==◌, ok, arith, inl, inr,
  with_savepoint, Result-cases, Bool-cases, ◌≢◌, find?, any, insert_row,
}
use check.Sync.Defs.{
  SpErr, duplicate, rejected, Db, BatchState, Table, upsert_returning_id, Inspection,
}
use check.Sync.Items.{upsert_inspection, inspection_body, InspectionItem, insert_inspection}

module _ {R : Type 0} (id_of uuid_of : R → ℕ) (visible : R → Bool) where
  find?-insert :
      (uuid : ℕ) (x : R) (rows : List R)
      → any (λ r. uuid_of r == uuid) rows ≡ false
      → uuid_of x ≡ uuid
      → visible x ≡ true
      → find? (λ r. uuid_of r == uuid && visible r) (insert_row x rows) ≡ some x
  find?-insert uuid x [] n e v = ground arith
  find?-insert uuid x (r ∷ rows) n e v = ground (arith, find?-insert uuid x rows)

  any-insert :
      (uuid : ℕ) (x : R) (rows : List R)
      → uuid_of x ≡ uuid
      → any (λ r. uuid_of r == uuid) (insert_row x rows) ≡ true
  any-insert uuid x [] e = ground arith
  any-insert uuid x (r ∷ rows) e = ground (arith, any-insert uuid x rows)

  -- The same insert again finds the row of the first and changes nothing.
  pub upsert-again :
      (i s : Bool) (ref ref' : Option SpErr) (uuid : ℕ) (row row' : ℕ → R) (t t' : Table R) (id : ℕ)
      (inserted : Bool) (c : Bool)
      → ((n : ℕ) → (uuid_of (row n) ≡ uuid) × (id_of (row n) ≡ n) × (visible (row n) ≡ true))
      → upsert_returning_id id_of uuid_of visible i s c ref uuid row t ≡ ok ((id, inserted), t')
      → upsert_returning_id id_of uuid_of visible false false c ref' uuid row' t'
        ≡ ok ((id, false), t')
  unfolding upsert_returning_id
  upsert-again i s ref ref' uuid row row' t t' id inserted c good h = ground (
    arith,
    find?-insert uuid (row t.next) t.rows,
    any-insert uuid (row t.next) t.rows,
    good t.next,
  )

abbrev pub no_failure : ℕ → Bool
no_failure _ = false

inspection_body-again :
    (fail : ℕ → Bool) (item : InspectionItem) (actor actor' : ℕ) (db db' : Db) (id : ℕ)
    (inserted : Bool)
    → inspection_body fail item actor db ≡ ok ((id, inserted), db')
    → inspection_body no_failure item actor' db' ≡ ok ((id, false), db')
unfolding inspection_body
inspection_body-again fail item actor actor' db db' id inserted h =
    elim (Result-cases (insert_inspection fail item actor db)) [
      | inr (e, u) ↦ cc (rw u at h)
      | inl (((i, b), t), u) ↦
          let same : db' ≡ record db { inspections = t } = cc (rw u at h) in
          let same_id : id ≡ i = cc (rw u at h) in
          let again : insert_inspection no_failure item actor' (record db { inspections = t })
              ≡ ok ((i, false), t) =
            upsert-again Inspection.id Inspection.client_uuid (λ _. true) _ _ _ _ _ _ _ _ t i b _
              (λ n. (refl, refl, refl)) u in
          rw (same, same_id, again) refl
    ]

-- An inspection that was accepted, or found, is found again: whoever delivers it a second time, in
-- whatever batch, without a failure of the database, is answered `duplicate` with the id of the
-- first answer, and the tables stay as the first delivery left them.
pub upsert_inspection-again :
    (fail : ℕ → Bool) (item : InspectionItem) (actor actor' : ℕ) (db : Db) (st st' : BatchState)
    → (upsert_inspection fail item actor db st).2.status ≢ rejected
    → let first = upsert_inspection fail item actor db st in
      let again = upsert_inspection no_failure item actor' first.0 st' in
      (again.0 ≡ first.0) × (again.2.status ≡ duplicate) × (again.2.server_id ≡ first.2.server_id)
unfolding upsert_inspection with_savepoint
upsert_inspection-again fail item actor actor' db st st' h = elim (Bool-cases (fail 0)) [
  | inl f ↦ absurd (h (rw f refl))
  | inr f ↦ elim (Result-cases (inspection_body fail item actor db)) [
    | inr (e, u) ↦ absurd (h (rw (f, u) refl))
    | inl (((i, b), db'), u) ↦ elim (Bool-cases (fail 1)) [
      | inl g ↦ absurd (h (rw (f, u, g) refl))
      | inr g ↦
          rw (f, u, g, inspection_body-again fail item actor actor' db db' i b u) (refl, refl, refl)
    ]
  ]
]
