-- ===== src/Problem/Service.antt =====
-- The operations of backend/internal/problem/service.go that write. `fail i` says that the database
-- fails the i-th call of an operation; `now` is the instant of its transaction.
use check.Common.{
  ℕ, String, Bool, true, false, not, ◌&&◌, ◌||◌, Option, none, some, List, [], ◌∷◌, ◌==◌, str_eq,
  if◌then◌else◌, any, find?, Table, add_row, Result, ok, err, ◌>>=◌, Body, with_tx, update_where,
  coalesce, coalesce?,
}
use check.Problem.Defs.{
  Bytes, ProblemErr, not_found, project_missing, inspector_missing, invalid_log_action, fault, Row,
  LogRow, Db, Problem, ProcessingLog, deref_str, scan_problem, scan_log, CreateInput, UpdateInput,
  CreateLogInput,
}

abbrev pub action_status_change : String
action_status_change = "STATUS_CHANGE"

abbrev pub action_comment : String
action_comment = "COMMENT"

abbrev pub action_reassign : String
action_reassign = "REASSIGN"

-- `validClientLogAction`
abbrev pub valid_client_log_action : String → Bool
valid_client_log_action action = str_eq action action_comment || str_eq action action_reassign

-- The foreign keys of `problems`, by the column that the constraint's name has.
pub data ForeignKey : Type 0 where
  project inspection inspector dict_item cover_media : ForeignKey

-- `classifyFK`
abbrev pub classify_fk : ForeignKey → ProblemErr
classify_fk inspector = inspector_missing
classify_fk inspection = not_found
classify_fk _ = project_missing

abbrev pub contains : List ℕ → ℕ → Bool
contains ids i = any (λ j. j == i) ids

-- A null refers to nothing.
abbrev pub contains? : List ℕ → Option ℕ → Bool
contains? ids none = true
contains? ids (some i) = contains ids i

-- The first violated one of some foreign keys, in the order of their constraints.
abbrev pub first_broken : List (ForeignKey × Bool) → Option ForeignKey
first_broken [] = none
first_broken ((key, holds) ∷ keys) =
    let rest = first_broken keys in if holds then rest else some key

abbrev pub live : ℕ → Row → Bool
live id r = r.id == id && not r.deleted

abbrev pub live_uuid : ℕ → Row → Bool
live_uuid uuid r = r.client_uuid == uuid && not r.deleted

-- A single row read back, or `pgx.ErrNoRows`.
abbrev pub found : {G : Type 0} → (Bytes → Option G) → Option Row → Result ProblemErr (Problem G)
found decode none = err not_found
found decode (some r) = scan_problem decode r

-- `Get`
unfoldable pub get :
    {G : Type 0} → (Bytes → Option G) → Bool → ℕ → Db → Result ProblemErr (Problem G)
get decode fails id db =
    if fails then err fault else found decode (find? (live id) db.problems.rows)

-- `getByClientUUID`
unfoldable pub get_by_client_uuid :
    {G : Type 0} → (Bytes → Option G) → Bool → ℕ → Db → Result ProblemErr (Problem G)
get_by_client_uuid decode fails uuid db =
    if fails then err fault else found decode (find? (live_uuid uuid) db.problems.rows)

-- `resolveDictVersion`
unfoldable pub resolve_dict_version : Bool → Option ℕ → Db → Result ProblemErr ℕ
resolve_dict_version fails (some v) db = ok v
resolve_dict_version fails none db =
    if fails then err fault else ok (coalesce db.problem_type_version 1)

abbrev pub new_row : CreateInput → ℕ → ℕ → ℕ → ℕ → ℕ → Row
new_row input uuid version actor now id = record {
  id = id;
  client_uuid = uuid;
  project_id = input.project_id;
  inspection_id = input.inspection_id;
  inspector_id = input.inspector_id;
  geom = input.geom;
  type_item_id = input.type_item_id;
  status_item_id = input.status_item_id;
  category_item_id = input.category_item_id;
  dict_version_used = version;
  title = deref_str input.title;
  description = deref_str input.description;
  note = deref_str input.note;
  captured_at = input.captured_at;
  cover_media_id = input.cover_media_id;
  created_by = actor;
  updated_by = actor;
  created_at = now;
  updated_at = now;
  deleted = false;
}

abbrev pub create_refusal : Db → CreateInput → Option ForeignKey
create_refusal db input = first_broken (
    (project, contains db.project_ids input.project_id)
    ∷ (inspection, contains? db.inspection_ids input.inspection_id)
    ∷ (inspector, contains db.user_ids input.inspector_id)
    ∷ (dict_item, contains? db.dict_item_ids input.type_item_id)
    ∷ (dict_item, contains? db.dict_item_ids input.status_item_id)
    ∷ (dict_item, contains? db.dict_item_ids input.category_item_id)
    ∷ (cover_media, contains? db.media_ids input.cover_media_id)
    ∷ [])

-- `INSERT … ON CONFLICT (client_uuid) DO NOTHING`, and the read of the row with that client UUID.
abbrev pub insert_problem :
    {G : Type 0}
    → (Bytes → Option G)
    → (ℕ → Bool)
    → CreateInput
    → ℕ
    → (ℕ → Row)
    → Db
    → Db × Result ProblemErr (Problem G)
insert_problem decode fail input uuid row db =
    if any (λ r. r.client_uuid == uuid) db.problems.rows
    then (elim input.client_uuid [
      | none ↦ (db, err fault)
      | some given ↦ (db, get_by_client_uuid decode (fail 2) given db)
    ])
    else elim (create_refusal db input) [
      | some key ↦ (db, err (classify_fk key))
      | none ↦
          let after = record db { problems = add_row row db.problems } in
          (after, get_by_client_uuid decode (fail 2) uuid after)
    ]

-- `Create`; `fresh` is the UUID that the database generates when none is given.
unfoldable pub create :
    {G : Type 0}
    → (Bytes → Option G)
    → (ℕ → Bool)
    → ℕ
    → ℕ
    → CreateInput
    → ℕ
    → Db
    → Db × Result ProblemErr (Problem G)
create decode fail fresh now input actor db =
    elim (resolve_dict_version (fail 0) input.dict_version_used db) [
      | err e ↦ (db, err e)
      | ok version ↦
          if fail 1
          then (db, err fault)
          else let uuid = coalesce input.client_uuid fresh in
            insert_problem decode fail input uuid (new_row input uuid version actor now) db
    ]

-- `statusChanged`
abbrev pub status_changed : Option ℕ → Option ℕ → Bool
status_changed none current = false
status_changed (some requested) none = true
status_changed (some requested) (some current) = not (requested == current)

-- The columns that `Update` sets.
abbrev pub revise : UpdateInput → ℕ → ℕ → Row → Row
revise input actor now r = record r {
  status_item_id = coalesce? input.status_item_id r.status_item_id;
  category_item_id = coalesce? input.category_item_id r.category_item_id;
  type_item_id = coalesce? input.type_item_id r.type_item_id;
  inspection_id = coalesce? input.inspection_id r.inspection_id;
  cover_media_id = coalesce? input.cover_media_id r.cover_media_id;
  title = coalesce input.title r.title;
  description = coalesce input.description r.description;
  note = coalesce input.note r.note;
  updated_by = actor;
  updated_at = now;
}

-- A column that the update leaves as it is refers to what it referred to.
abbrev pub update_refusal : Db → UpdateInput → Option ForeignKey
update_refusal db input = first_broken (
    (inspection, contains? db.inspection_ids input.inspection_id)
    ∷ (dict_item, contains? db.dict_item_ids input.type_item_id)
    ∷ (dict_item, contains? db.dict_item_ids input.status_item_id)
    ∷ (dict_item, contains? db.dict_item_ids input.category_item_id)
    ∷ (cover_media, contains? db.media_ids input.cover_media_id)
    ∷ [])

abbrev pub change_row : ℕ → Option ℕ → Option ℕ → ℕ → ℕ → ℕ → LogRow
change_row problem_id before after actor now id = record {
  id = id;
  problem_id = problem_id;
  action = action_status_change;
  from_status_item_id = before;
  to_status_item_id = after;
  note = "";
  operator_id = actor;
  created_at = now;
}

-- The insert of the log row, where the status really changes; its operator is a foreign key.
abbrev pub log_change :
    Bool → ℕ → ℕ → ℕ → Option ℕ → Option ℕ → Db → Result ProblemErr (Table LogRow)
log_change fails actor now id current requested db =
    if not (status_changed requested current)
    then ok db.logs
    else if fails || not (contains db.user_ids actor)
    then err fault
    else ok (add_row (change_row id current requested actor now) db.logs)

abbrev pub revise_problems : ℕ → UpdateInput → ℕ → ℕ → Db → Table Row
revise_problems id input actor now db = record db.problems {
  rows = update_where (live id) (revise input actor now) db.problems.rows;
}

-- What `Update` does with the row that it has locked.
abbrev pub update_locked :
    {G : Type 0}
    → (Bytes → Option G)
    → (ℕ → Bool)
    → ℕ
    → ℕ
    → UpdateInput
    → ℕ
    → Row
    → Body Db ProblemErr (Problem G)
update_locked decode fail now id input actor r db =
    if fail 3 then err fault else elim (update_refusal db input) [
      | some key ↦ err (classify_fk key)
      | none ↦ do
        p ← scan_problem decode (revise input actor now r)
        logs ← log_change (fail 4) actor now id r.status_item_id input.status_item_id db
        ok (p, record db { problems = revise_problems id input actor now db; logs = logs })
    ]

-- The body of `Update`: `SELECT … FOR UPDATE` first.
unfoldable pub update_body :
    {G : Type 0}
    → (Bytes → Option G)
    → (ℕ → Bool)
    → ℕ
    → ℕ
    → UpdateInput
    → ℕ
    → Body Db ProblemErr (Problem G)
update_body decode fail now id input actor db =
    if fail 2 then err fault else elim (find? (live id) db.problems.rows) [
      | none ↦ err not_found
      | some r ↦ update_locked decode fail now id input actor r db
    ]

-- `Update`
unfoldable pub update :
    {G : Type 0}
    → (Bytes → Option G)
    → (ℕ → Bool)
    → ℕ
    → ℕ
    → UpdateInput
    → ℕ
    → Db
    → Db × Result ProblemErr (Problem G)
update decode fail now id input actor db =
    with_tx (fail 0) (fail 1) fault (update_body decode fail now id input actor) db

abbrev pub retire : ℕ → ℕ → Row → Row
retire actor now r = record r { updated_by = actor; updated_at = now; deleted = true }

-- `Delete`
unfoldable pub delete : Bool → ℕ → ℕ → ℕ → Db → Db × Result ProblemErr (Unit {0})
delete fails now id actor db =
    if fails
    then (db, err fault)
    else if any (live id) db.problems.rows
    then (
      record db {
        problems = record db.problems {
          rows = update_where (live id) (retire actor now) db.problems.rows;
        };
      },
      ok tt,
    )
    else (db, err not_found)

abbrev pub operator_of : Option ℕ → ℕ → ℕ
operator_of none actor = actor
operator_of (some operator) actor = if operator == 0 then actor else operator

abbrev pub log_row : CreateLogInput → ℕ → ℕ → ℕ → ℕ → LogRow
log_row input problem_id operator now id = record {
  id = id;
  problem_id = problem_id;
  action = input.action;
  from_status_item_id = none;
  to_status_item_id = none;
  note = deref_str input.note;
  operator_id = operator;
  created_at = now;
}

-- `assertProblemExists`
abbrev pub assert_problem_exists : Bool → ℕ → Db → Result ProblemErr (Unit {0})
assert_problem_exists fails id db =
    if fails then err fault else if any (live id) db.problems.rows then ok tt else err not_found

-- The insert of `CreateLog`. A problem that exists keeps its row, so of its two foreign keys only that
-- of the operator can break.
abbrev pub append_log : Bool → ℕ → (ℕ → LogRow) → Db → Db × Result ProblemErr ProcessingLog
append_log fails operator row db =
    if fails
    then (db, err fault)
    else if contains db.user_ids operator
    then (record db { logs = add_row row db.logs }, ok (scan_log (row db.logs.next)))
    else (db, err inspector_missing)

-- `CreateLog`
unfoldable pub create_log :
    (ℕ → Bool) → ℕ → ℕ → CreateLogInput → ℕ → Db → Db × Result ProblemErr ProcessingLog
create_log fail now problem_id input actor db =
    if not (valid_client_log_action input.action)
    then (db, err invalid_log_action)
    else elim (assert_problem_exists (fail 0) problem_id db) [
      | err e ↦ (db, err e)
      | ok done ↦
          let operator = operator_of input.operator_id actor in
          append_log (fail 1) operator (log_row input problem_id operator now) db
    ]
