-- ===== src/Problem/Audit.antt =====
-- The processing log as an audit trail of the status of every problem.
use check.Common.{
  ℕ, ◌<◌, ◌≡◌, refl, ap, sym, ◌∙◌, Bool, true, false, ◌&&◌, Option, none, some, List, [], ◌∷◌, ◌==◌,
  str_eq, if◌then◌else◌, All, All-map, All-pair, All-update_where, Serial, Serial-one, Distinct,
  insert_row, update_where, coalesce?, arith, Bool-cases, inl, inr, ◌⊎◌, find?, found-passes,
}
use check.Problem.Defs.{Row, LogRow, Db, UpdateInput}
use check.Problem.Service.{action_status_change, status_changed, live, revise, change_row}

abbrev pub same_status : Option ℕ → Option ℕ → Bool
same_status none none = true
same_status (some a) (some b) = a == b
same_status _ _ = false

-- A status change of the problem `id`.
abbrev pub is_change : ℕ → LogRow → Bool
is_change id l = l.problem_id == id && str_eq l.action action_status_change

-- The change leaves the status `current`, for another one.
abbrev pub follows : Option ℕ → LogRow → Bool
follows current l =
    same_status l.from_status_item_id current && status_changed l.to_status_item_id current

-- The status after the changes of a log; none where a change does not follow the one before it.
abbrev pub replay : ℕ → Option ℕ → List LogRow → Option (Option ℕ)
replay id current [] = some current
replay id current (l ∷ logs) =
    let skipped = replay id current logs in
    let changed = replay id l.to_status_item_id logs in
    if is_change id l then (if follows current l then changed else none) else skipped

replay-other :
    (id : ℕ) (current : Option ℕ) (l : LogRow) (logs : List LogRow)
    → is_change id l ≡ false
    → replay id current (insert_row l logs) ≡ replay id current logs
replay-other id current l [] h = rw h refl
replay-other id current l (m ∷ logs) h =
    rw (replay-other id current l logs h, replay-other id m.to_status_item_id l logs h) refl

replay-change :
    (id : ℕ) (current last : Option ℕ) (l : LogRow) (logs : List LogRow)
    → is_change id l ≡ true
    → follows last l ≡ true
    → replay id current logs ≡ some last
    → replay id current (insert_row l logs) ≡ some l.to_status_item_id
replay-change id current last l [] c f h = let same : current ≡ last = cc in rw (c, same, f) refl
replay-change id current last l (m ∷ logs) c f h = elim (Bool-cases (is_change id m)) [
  | inr e ↦ rw e (replay-change id current last l logs c f (rw e at h))
  | inl e ↦ elim (Bool-cases (follows current m)) [
    | inr g ↦ absurd (cc (rw (e, g) at h))
    | inl g ↦ rw (e, g) (replay-change id m.to_status_item_id last l logs c f (rw (e, g) at h))
  ]
]

-- The changes of the problem's log lead from some first status to its status.
abbrev pub Audited : List LogRow → Row → Type 0
Audited logs r = (start : Option ℕ) × (replay r.id start logs ≡ some r.status_item_id)

abbrev pub same_uuid : Row → Row → Bool
same_uuid a b = a.client_uuid == b.client_uuid

-- The ids and the client UUIDs of the problems are unique, every log row is of a problem that the table
-- has had, and every problem is audited.
abbrev pub Consistent : Db → Type 0
Consistent db =
    Serial Row.id 0 db.problems.next db.problems.rows
    × Distinct same_uuid db.problems.rows
    × All (λ l. l.problem_id < db.problems.next) db.logs.rows
    × All (Audited db.logs.rows) db.problems.rows

same_status_refl : (s : Option ℕ) → same_status s s ≡ true
same_status_refl none = refl
same_status_refl (some n) = ground arith

coalesce?-same :
    (requested current : Option ℕ)
    → status_changed requested current ≡ false
    → coalesce? requested current ≡ current
coalesce?-same none current h = refl
coalesce?-same (some n) none h = absurd (cc)
coalesce?-same (some n) (some m) h = ap some (ground arith)

coalesce?-changed :
    (requested current : Option ℕ)
    → status_changed requested current ≡ true
    → coalesce? requested current ≡ requested
coalesce?-changed none current h = absurd (cc)
coalesce?-changed (some n) current h = refl

pub replay-unseen :
    (id : ℕ) (start : Option ℕ) (logs : List LogRow)
    → All (λ l. l.problem_id < id) logs
    → replay id start logs ≡ some start
replay-unseen id start [] h = refl
replay-unseen id start (l ∷ logs) h =
    let other : is_change id l ≡ false = ground (arith, h.0) in
    rw other (replay-unseen id start logs h.1)

-- A row of the log that is no change leaves every problem audited.
pub Audited-comment :
    (l : LogRow) (logs : List LogRow) (rows : List Row)
    → str_eq l.action action_status_change ≡ false
    → All (Audited logs) rows
    → All (Audited (insert_row l logs)) rows
Audited-comment l logs rows h =
    All-map (Audited logs) (Audited (insert_row l logs)) rows
      λ r a. (a.0, replay-other r.id a.0 l logs (ground arith) ∙ a.1)

pub live-id : (id : ℕ) (r : Row) → live id r ≡ true → r.id ≡ id
live-id id r h = ground arith

-- An audited row, which is the row `r` where it has its id.
abbrev Known : ℕ → Row → List LogRow → Row → Type 0
Known id r logs x = Audited logs x × (x.id ≡ id → x ≡ r)

module _ (id : ℕ) (r : Row) (input : UpdateInput) (actor now : ℕ) (logs : List LogRow)
    (is_live : live id r ≡ true) where
  unchanged-hit :
      (x : Row)
      → status_changed input.status_item_id r.status_item_id ≡ false
      → Known id r logs x
      → live id x ≡ true
      → Audited logs (revise input actor now x)
  unchanged-hit x same ((start, a), only) l =
      let here : x.status_item_id ≡ r.status_item_id =
        ap (λ (y : Row). y.status_item_id) (only (live-id id x l)) in
      (
        start,
        a ∙ ap some (sym (coalesce?-same input.status_item_id x.status_item_id (rw here same))),
      )

  module _ (n : ℕ) (changed : status_changed input.status_item_id r.status_item_id ≡ true) where
    abbrev entry : LogRow
    entry = change_row id r.status_item_id input.status_item_id actor now n

    changed-hit :
        (x : Row)
        → Known id r logs x
        → live id x ≡ true
        → Audited (insert_row entry logs) (revise input actor now x)
    changed-hit x ((start, a), only) l =
        let here : x.status_item_id ≡ r.status_item_id =
          ap (λ (y : Row). y.status_item_id) (only (live-id id x l)) in
        let differs : status_changed input.status_item_id x.status_item_id ≡ true =
          rw here changed in
        (
          start,
          replay-change x.id start x.status_item_id entry logs (ground (arith, live-id id x l))
                (rw (here, same_status_refl r.status_item_id, changed) refl) a
              ∙ ap some (sym (coalesce?-changed input.status_item_id x.status_item_id differs)),
        )

    changed-miss :
        (x : Row) → Known id r logs x → live id x ≡ false → Audited (insert_row entry logs) x
    changed-miss x ((start, a), only) l =
        let other : is_change x.id entry ≡ false = elim (Bool-cases (id == x.id)) [
          | inr e ↦ rw e refl
          | inl e ↦ absurd (cc (only (ground arith), is_live, l))
        ] in
        (start, replay-other x.id start entry logs other ∙ a)

-- The update of a live problem, with a log that has its change or, where there is none, the log as it was.
pub Audited-update :
    (id : ℕ) (r : Row) (input : UpdateInput) (actor now next n : ℕ) (rows : List Row)
    (logs logs' : List LogRow)
    → find? (live id) rows ≡ some r
    → Serial Row.id 0 next rows
    → (status_changed input.status_item_id r.status_item_id ≡ false) × (logs' ≡ logs)
      ⊎ (status_changed input.status_item_id r.status_item_id ≡ true)
        × (logs'
            ≡ insert_row (change_row id r.status_item_id input.status_item_id actor now n) logs)
    → All (Audited logs) rows
    → All (Audited logs') (update_where (live id) (revise input actor now) rows)
Audited-update id r input actor now next n rows logs logs' found serial logged h =
    let known =
      All-pair (Audited logs) (λ x. x.id ≡ id → x ≡ r) rows h
        (Serial-one Row.id id 0 next (live id) r rows (live-id id) serial found) in
    let is_live : live id r ≡ true = found-passes (live id) r rows found in
    elim logged [
      | inl (same, e) ↦ rw e (
          All-update_where (Known id r logs) (Audited logs) (live id) (revise input actor now) rows
            (λ x k l. unchanged-hit id r input actor now logs is_live x same k l) (λ x k l. k.0)
            known)
      | inr (changed, e) ↦ rw e (
          All-update_where (Known id r logs) _ (live id) (revise input actor now) rows
            (changed-hit id r input actor now logs is_live n changed)
            (changed-miss id r input actor now logs is_live n changed) known)
    ]
