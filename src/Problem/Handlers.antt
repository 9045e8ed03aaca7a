-- ===== src/Problem/Handlers.antt =====
-- The HTTP handlers of the problems (backend/internal/problem/handler.go): what they check, what they hand to
-- the service, and the code of an error. JSON decoding, the texts of the messages and the encoding of a
-- point are parameters or left out; `none` for a body is one that does not decode.
use check.Common.{
  ℕ, ℤ, pos, negsuc, ◌≡◌, refl, String, Bool, Option, none, some, List, ◌==◌, ltb, if◌then◌else◌,
  length, with_tx_atomic, Result, ok, err, Option-cases, inl, inr,
}
use check.Httpx.Codes.{ErrorCode, validation_failed, internal}
use check.Httpx.Paging.{parse_page, offset, limit}
use check.Problem.Defs.{
  Bytes, ProblemErr, not_found, project_missing, inspector_missing, invalid_log_action, fault, Db,
  Problem, ProcessingLog, CreateInput, UpdateInput, CreateLogInput, ListFilter,
}
use check.Problem.Service.{
  get, create, update, update_body, delete, create_log, valid_client_log_action,
}
use check.Problem.Queries.{list, map_layer, list_logs, DictLabel, ProblemFeature, map_limit_default}

-- `failCreateErr`
abbrev pub fail_create_err : ProblemErr → ErrorCode
fail_create_err project_missing = validation_failed
fail_create_err inspector_missing = validation_failed
fail_create_err not_found = validation_failed
fail_create_err _ = internal

-- `failErr`
abbrev pub fail_err : ProblemErr → ErrorCode
fail_err not_found = ErrorCode.not_found
fail_err invalid_log_action = validation_failed
fail_err project_missing = validation_failed
fail_err inspector_missing = validation_failed
fail_err _ = internal

abbrev pub coded :
    {A : Type 0} → (ProblemErr → ErrorCode) → Result ProblemErr A → Result ErrorCode A
coded code (ok a) = ok a
coded code (err e) = err (code e)

abbrev pub coded_with :
    {S A : Type 0} → (ProblemErr → ErrorCode) → S × Result ProblemErr A → S × Result ErrorCode A
coded_with code (s, r) = (s, coded code r)

-- `pathID`: an id that parses and is positive.
abbrev pub path_id : Option ℤ → Option ℕ
path_id (some (pos n)) = if ltb 0 n then some n else none
path_id _ = none

-- A time of the query string, as `queryTime` reads it.
pub data TimeQuery : Type 0 where
  absent bad : TimeQuery
  at : ℕ → TimeQuery

-- The query string; a number that is absent or does not parse is none.
pub record Query : Type 0 where
  pub project_id : Option ℕ
  pub type_item : Option ℕ
  pub status : Option ℕ
  pub category : Option ℕ
  pub inspector_id : Option ℕ
  pub inspection_id : Option ℕ
  pub since : TimeQuery
  pub until : TimeQuery

abbrev pub time_of : TimeQuery → Option (Option ℕ)
time_of absent = some none
time_of bad = none
time_of (at t) = some (some t)

-- `parseFilter`: none where a time is malformed.
abbrev pub parse_filter : Query → Option ListFilter
parse_filter q = elim (time_of q.since) [
  | none ↦ none
  | some since ↦ elim (time_of q.until) [
    | none ↦ none
    | some until ↦ some (record {
      project_id = q.project_id;
      type_item = q.type_item;
      status = q.status;
      category = q.category;
      inspector_id = q.inspector_id;
      inspection_id = q.inspection_id;
      since = since;
      until = until;
    })
  ]
]

-- `oapi.ProblemCreate`, with `none` for the zero time.
pub record ProblemCreate : Type 0 where
  pub project_id : ℕ
  pub coordinates : List ℕ
  pub captured_at : Option ℕ
  pub inspector_id : Option ℕ
  pub client_uuid : Option ℕ
  pub inspection_id : Option ℕ
  pub type_item_id : Option ℕ
  pub status_item_id : Option ℕ
  pub category_item_id : Option ℕ
  pub dict_version_used : Option ℕ
  pub cover_media_id : Option ℕ
  pub title : Option String
  pub description : Option String
  pub note : Option String

abbrev pub inspector_of : Option ℕ → ℕ → ℕ
inspector_of none user = user
inspector_of (some i) user = if i == 0 then user else i

abbrev pub create_input : ProblemCreate → Bytes → ℕ → ℕ → CreateInput
create_input req geom captured user = record {
  project_id = req.project_id;
  geom = geom;
  captured_at = captured;
  inspector_id = inspector_of req.inspector_id user;
  client_uuid = req.client_uuid;
  inspection_id = req.inspection_id;
  type_item_id = req.type_item_id;
  status_item_id = req.status_item_id;
  category_item_id = req.category_item_id;
  dict_version_used = req.dict_version_used;
  cover_media_id = req.cover_media_id;
  title = req.title;
  description = req.description;
  note = req.note;
}

-- The checks of `Create` up to the encoded point: the instant and the point of a request that passes.
-- `valid` is `db.ValidateGeomWGS84`, none where the database fails.
abbrev pub checked_request :
    (List ℕ → Option Bytes) → (Bytes → Option Bool) → ProblemCreate → Result ErrorCode (ℕ × Bytes)
checked_request encode valid req =
    if req.project_id == 0 then err validation_failed else elim req.captured_at [
      | none ↦ err validation_failed
      | some captured ↦
          if ltb (length req.coordinates) 2
          then err validation_failed
          else elim (encode req.coordinates) [
            | none ↦ err validation_failed
            | some geom ↦ elim (valid geom) [
              | none ↦ err internal
              | some good ↦ if good then ok (captured, geom) else err validation_failed
            ]
          ]
    ]

module _ {G : Type 0} (decode : Bytes → Option G) where
  -- `List`; an offset that has wrapped round is an error of the database.
  unfoldable pub list_handler :
      (ℕ → Bool) → Option ℤ → Option ℤ → Query → Db → Result ErrorCode (List (Problem G) × ℕ)
  list_handler fail number size q db =
      let p = parse_page number size in
      elim (parse_filter q) [
        | none ↦ err validation_failed
        | some f ↦ elim (offset p) [
          | negsuc n ↦ err internal
          | pos from ↦ coded (λ e. internal) (list decode fail f (limit p) from db)
        ]
      ]

  -- `Create`
  unfoldable pub create_handler :
      (List ℕ → Option Bytes)
      → (Bytes → Option Bool)
      → (ℕ → Bool)
      → ℕ
      → ℕ
      → Option ProblemCreate
      → ℕ
      → Db
      → Db × Result ErrorCode (Problem G)
  create_handler encode valid fail fresh now none user db = (db, err validation_failed)
  create_handler encode valid fail fresh now (some req) user db =
      elim (checked_request encode valid req) [
        | err e ↦ (db, err e)
        | ok (captured, geom) ↦
            coded_with fail_create_err
              (create decode fail fresh now (create_input req geom captured user) user db)
      ]

  -- `Get`
  unfoldable pub get_handler : Bool → Option ℤ → Db → Result ErrorCode (Problem G)
  get_handler fails id db = elim (path_id id) [
    | none ↦ err validation_failed
    | some i ↦ coded fail_err (get decode fails i db)
  ]

  -- `Update`
  unfoldable pub update_handler :
      (ℕ → Bool) → ℕ → Option ℤ → Option UpdateInput → ℕ → Db → Db × Result ErrorCode (Problem G)
  update_handler fail now id body user db = elim (path_id id) [
    | none ↦ (db, err validation_failed)
    | some i ↦ elim body [
      | none ↦ (db, err validation_failed)
      | some input ↦ coded_with fail_err (update decode fail now i input user db)
    ]
  ]

-- `Delete`
unfoldable pub delete_handler : Bool → ℕ → Option ℤ → ℕ → Db → Db × Result ErrorCode (Unit {0})
delete_handler fails now id user db = elim (path_id id) [
  | none ↦ (db, err validation_failed)
  | some i ↦ coded_with fail_err (delete fails now i user db)
]

-- `ListLogs`
unfoldable pub list_logs_handler :
    (ℕ → Bool) → Option ℤ → Db → Result ErrorCode (List ProcessingLog)
list_logs_handler fail id db = elim (path_id id) [
  | none ↦ err validation_failed
  | some i ↦ coded fail_err (list_logs fail i db)
]

-- `CreateLog`
unfoldable pub create_log_handler :
    (ℕ → Bool) → ℕ → Option ℤ → Option CreateLogInput → ℕ → Db → Db × Result ErrorCode ProcessingLog
create_log_handler fail now id body user db = elim (path_id id) [
  | none ↦ (db, err validation_failed)
  | some i ↦ elim body [
    | none ↦ (db, err validation_failed)
    | some input ↦
        if valid_client_log_action input.action
        then coded_with fail_err (create_log fail now i input user db)
        else (db, err validation_failed)
  ]
]

-- The parameter `limit` of the map: a positive number, or the default.
abbrev pub asked_limit : Option ℤ → ℤ
asked_limit (some (pos n)) = if ltb 0 n then pos n else pos map_limit_default
asked_limit _ = pos map_limit_default

-- `Map`
unfoldable pub map_handler :
    {G : Type 0}
    → (Bytes → Option G)
    → List DictLabel
    → Bool
    → Option ℤ
    → Query
    → Db
    → Result ErrorCode (List (ProblemFeature G))
map_handler render items fails asked q db = elim (parse_filter q) [
  | none ↦ err validation_failed
  | some f ↦ coded (λ e. internal) (map_layer render items fails f (asked_limit asked) db)
]

coded-eq-err :
    {S A : Type 0} (code : ProblemErr → ErrorCode) (out : S × Result ProblemErr A) (s : S)
    {c : ErrorCode}
    → ((e : ProblemErr) → out.1 ≡ err e → out.0 ≡ s)
    → (coded_with code out).1 ≡ err c
    → (coded_with code out).0 ≡ s
coded-eq-err code (s', ok a) s unchanged h = absurd (cc)
coded-eq-err code (s', err e) s unchanged h = unchanged e refl

-- An update request that is answered with an error, of whatever code, has changed nothing.
pub update_handler_atomic :
    {G : Type 0} (decode : Bytes → Option G) (fail : ℕ → Bool) (now : ℕ) (id : Option ℤ)
    (body : Option UpdateInput) (user : ℕ) (db : Db) {c : ErrorCode}
    → (update_handler decode fail now id body user db).1 ≡ err c
    → (update_handler decode fail now id body user db).0 ≡ db
unfolding update_handler update
update_handler_atomic decode fail now id body user db h = elim (Option-cases (path_id id)) [
  | inl n ↦ rw (n, update_handler) refl
  | inr (i, n) ↦ elim (Option-cases body) [
    | inl b ↦ rw (n, b, update_handler) refl
    | inr (input, b) ↦
        rw (n, b, update_handler)
          (coded-eq-err fail_err (update decode fail now i input user db) db
            (λ e k.
              with_tx_atomic (fail 0) (fail 1) fault (update_body decode fail now i input user) db
                k)
            (rw (n, b, update_handler) at h))
  ]
]
