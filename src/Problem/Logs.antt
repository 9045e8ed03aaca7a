-- ===== src/Problem/Logs.antt =====
-- The processing log as `ListLogs` reads it (backend/internal/problem/service.go).
use check.Common.{
  ℕ, ◌≡◌, refl, ◌∙◌, Bool, true, false, ◌&&◌, ◌||◌, List, ◌==◌, ltb, any, keep, length, order_by,
  Ordered, order_by-Ordered, length-order_by, arith, Bool-cases, inl, inr, ok,
}
use check.Problem.Defs.{LogRow, Db, ProcessingLog, scan_log}
use check.Problem.Service.{live}
use check.Problem.Queries.{older, list_logs}
use check.Problem.Scan.{length-scan_all, scan_all-Ordered}

-- One entry ahead of another in the order of their instants and ids.
abbrev pub earlier : ProcessingLog → ProcessingLog → Bool
earlier a b = ltb a.created_at b.created_at || (a.created_at == b.created_at && ltb a.id b.id)

older-asym : (x y : LogRow) → older x y ≡ true → older y x ≡ false
older-asym x y h = ground arith

older-passes : (x y z : LogRow) → older z x ≡ true → older z y ≡ false → older y x ≡ true
older-passes x y z h n = ground arith

-- A log that is reported is of a live problem, has as many entries as the table has rows of this problem,
-- and no later entry stands ahead of an earlier one.
pub list_logs-eq-ok :
    (fail : ℕ → Bool) (id : ℕ) (db : Db) (entries : List ProcessingLog)
    → list_logs fail id db ≡ ok entries
    → (any (live id) db.problems.rows ≡ true)
      × (length entries ≡ length (keep (λ l. l.problem_id == id) db.logs.rows))
      × Ordered earlier entries
unfolding list_logs
list_logs-eq-ok fail id db entries h = elim (Bool-cases (fail 0)) [
  | inl e ↦ absurd (cc (rw e at h))
  | inr e ↦ elim (Bool-cases (any (live id) db.problems.rows)) [
    | inr n ↦ absurd (cc (rw (e, n) at h))
    | inl n ↦ elim (Bool-cases (fail 1)) [
      | inl f ↦ absurd (cc (rw (e, n, f) at h))
      | inr f ↦
          let mine = keep (λ l. l.problem_id == id) db.logs.rows in
          let read = rw (e, n, f) at h in
          (
            n,
            length-scan_all (λ l. ok (scan_log l)) (order_by older mine) read
                ∙ length-order_by older mine,
            scan_all-Ordered (λ l. ok (scan_log l)) older earlier (order_by older mine)
                (λ x y b c s t.
                  let here : b ≡ scan_log x = cc in
                  let there : c ≡ scan_log y = cc in rw (here, there) refl)
                (order_by-Ordered older older-asym older-passes mine) read,
          )
    ]
  ]
]
