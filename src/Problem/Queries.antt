-- ===== src/Problem/Queries.antt =====
-- The operations of backend/internal/problem/service.go that read many rows: the list of problems, the
-- map layer and the processing log.
use check.Common.{
  ℕ, ℤ, pos, String, Bool, true, false, not, ◌&&◌, ◌||◌, Option, none, some, List, [], ◌∷◌, ◌==◌,
  ltb, leb, if◌then◌else◌, keep, find?, length, take, skip, order_by, Result, ok, err, ◌>>=◌, guard,
}
use check.Problem.Defs.{
  Bytes, ProblemErr, fault, Row, LogRow, Db, Problem, ProcessingLog, nonempty, scan_problem,
  scan_log, ListFilter,
}
use check.Problem.Service.{assert_problem_exists}

-- A null parameter of a filter admits every row; a null column equals nothing.
abbrev pub admits : Option ℕ → (ℕ → Bool) → Bool
admits none test = true
admits (some wanted) test = test wanted

abbrev pub is_set_to : Option ℕ → ℕ → Bool
is_set_to none wanted = false
is_set_to (some v) wanted = v == wanted

-- `whereWithAlias`
abbrev pub matches : ListFilter → Row → Bool
matches f r =
    not r.deleted
    && admits f.project_id (λ v. r.project_id == v)
    && admits f.type_item (is_set_to r.type_item_id)
    && admits f.status (is_set_to r.status_item_id)
    && admits f.category (is_set_to r.category_item_id)
    && admits f.inspector_id (λ v. r.inspector_id == v)
    && admits f.inspection_id (is_set_to r.inspection_id)
    && admits f.since (λ v. leb v r.captured_at)
    && admits f.until (λ v. ltb r.captured_at v)

-- `ORDER BY captured_at DESC, id DESC` on instants and ids.
abbrev pub newer : ℕ × ℕ → ℕ × ℕ → Bool
newer (at, id) (at', id') = ltb at' at || (at == at' && ltb id' id)

abbrev pub capture_of : Row → ℕ × ℕ
capture_of r = (r.captured_at, r.id)

-- `for rows.Next()`: the first row that cannot be read fails the whole read.
abbrev pub scan_all :
    {A B : Type 0} → (A → Result ProblemErr B) → List A → Result ProblemErr (List B)
scan_all scan [] = ok []
scan_all scan (row ∷ rows) = scan row >>= λ b. scan_all scan rows >>= λ bs. ok (b ∷ bs)

abbrev pub selected : ListFilter → Db → List Row
selected f db =
    order_by (λ a b. newer (capture_of a) (capture_of b)) (keep (matches f) db.problems.rows)

-- `List`: a page and the count of all that match.
unfoldable pub list :
    {G : Type 0}
    → (Bytes → Option G)
    → (ℕ → Bool)
    → ListFilter
    → ℕ
    → ℕ
    → Db
    → Result ProblemErr (List (Problem G) × ℕ)
list decode fail f limit offset db = do
  started ← guard (not (fail 0)) fault
  page ← scan_all (scan_problem decode) (take limit (skip offset (selected f db)))
  counted ← guard (not (fail 1)) fault
  ok (page, length (keep (matches f) db.problems.rows))

-- The columns of `dict_item` that the map reads.
pub record DictLabel : Type 0 where
  pub id : ℕ
  pub label : String
  pub color : String

-- `oapi.ProblemFeature`
pub record ProblemFeature (G : Type 0) : Type 0 where
  pub id : ℕ
  pub geometry : G
  pub title : Option String
  pub captured_at : ℕ
  pub type_item_id : Option ℕ
  pub status_item_id : Option ℕ
  pub category_item_id : Option ℕ
  pub cover_media_id : Option ℕ
  pub type_label : Option String
  pub status_label : Option String
  pub status_color : Option String

-- `LEFT JOIN dict_item ON id = …`
abbrev pub joined : List DictLabel → Option ℕ → Option DictLabel
joined items none = none
joined items (some i) = find? (λ d. d.id == i) items

abbrev pub label_of : Option DictLabel → Option String
label_of none = none
label_of (some d) = some d.label

abbrev pub color_of : Option DictLabel → Option String
color_of none = none
color_of (some d) = some d.color

abbrev pub feature_at : {G : Type 0} → List DictLabel → Row → G → ProblemFeature G
feature_at items r geometry = record {
  id = r.id;
  geometry = geometry;
  title = nonempty r.title;
  captured_at = r.captured_at;
  type_item_id = r.type_item_id;
  status_item_id = r.status_item_id;
  category_item_id = r.category_item_id;
  cover_media_id = r.cover_media_id;
  type_label = label_of (joined items r.type_item_id);
  status_label = label_of (joined items r.status_item_id);
  status_color = color_of (joined items r.status_item_id);
}

-- `scanFeature`; `render` is `ST_AsGeoJSON` and the JSON decoder.
abbrev pub scan_feature :
    {G : Type 0} → (Bytes → Option G) → List DictLabel → Row → Result ProblemErr (ProblemFeature G)
scan_feature render items r = elim (render r.geom) [
  | none ↦ err fault
  | some geometry ↦ ok (feature_at items r geometry)
]

abbrev pub map_limit_max : ℕ
map_limit_max = 5000

abbrev pub map_limit_default : ℕ
map_limit_default = 5000

-- `if limit <= 0 || limit > MapLimitMax`
abbrev pub map_limit : ℤ → ℕ
map_limit (pos n) = if ltb 0 n && leb n map_limit_max then n else map_limit_default
map_limit _ = map_limit_default

-- `Map`
unfoldable pub map_layer :
    {G : Type 0}
    → (Bytes → Option G)
    → List DictLabel
    → Bool
    → ListFilter
    → ℤ
    → Db
    → Result ProblemErr (List (ProblemFeature G))
map_layer render items fails f limit db =
    if fails
    then err fault
    else scan_all (scan_feature render items) (take (map_limit limit) (selected f db))

-- `ORDER BY created_at ASC, id ASC`
abbrev pub older : LogRow → LogRow → Bool
older a b = ltb a.created_at b.created_at || (a.created_at == b.created_at && ltb a.id b.id)

-- `ListLogs`
unfoldable pub list_logs : (ℕ → Bool) → ℕ → Db → Result ProblemErr (List ProcessingLog)
list_logs fail problem_id db = do
  exists ← assert_problem_exists (fail 0) problem_id db
  started ← guard (not (fail 1)) fault
  scan_all (λ l. ok (scan_log l))
      (order_by older (keep (λ l. l.problem_id == problem_id) db.logs.rows))
