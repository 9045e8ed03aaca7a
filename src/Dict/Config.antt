-- ===== src/Dict/Config.antt =====
-- The versioned configuration (backend/internal/dict: `swapConfigVersion`, `getActiveConfig`,
-- `PutConfig`, `GetConfig`) and the ETag test. A value is its canonical JSON text; the columns
-- `effective_from` and `effective_to` are left out.
pub mod History
pub mod Etag
pub mod RoundTrip
use check.Common.{
  ℕ, ℤ, pos, eq_ℤ, inc_int32, suc, ◌+◌, ◌<◌, String, Bool, true, false, not, ◌&&◌, ◌||◌, Option,
  none, some, List, [], ◌∷◌, ◌++◌, ltb, ◌==◌, str_eq, if◌then◌else◌, any, find?, Result, ok, err,
  Body, with_tx, coalesce, update_where, insert_row,
}
use check.Dict.Defs.{Bytes, Err, not_found, config_conflict, db_fault, validation, actor_ptr}

pub record AppConfig : Type 0 where
  pub id : ℕ
  pub config_key : String
  pub value : String
  pub version : ℤ
  pub content_hash : Bytes
  pub is_active : Bool
  pub description : String
  pub updated_by : Option ℕ

pub record ConfigTable : Type 0 where
  pub rows : List AppConfig
  pub next_id : ℕ

abbrev pub has_key : String → AppConfig → Bool
has_key key r = str_eq r.config_key key

abbrev pub active : String → AppConfig → Bool
active key r = str_eq r.config_key key && r.is_active

-- The version of the row that `UPDATE … WHERE is_active RETURNING version` hands back, 0 for none.
abbrev pub prev_version : String → List AppConfig → ℤ
prev_version key rows = elim (find? (active key) rows) [ none ↦ pos 0 | some r ↦ r.version ]

abbrev pub deactivate : Option ℕ → AppConfig → AppConfig
deactivate by r = record r { is_active = false; updated_by = by }

-- `uq_app_config_active` and `uq_app_config_key_version`
abbrev pub clashes : String → ℤ → List AppConfig → Bool
clashes key version = any (λ r. str_eq r.config_key key && (r.is_active || eq_ℤ r.version version))

pub record SwapConfigArgs : Type 0 where
  pub key : String
  pub value : String
  pub content_hash : Bytes
  pub description : Option String
  pub updated_by : Option ℕ

abbrev pub new_config : SwapConfigArgs → ℕ → ℤ → AppConfig
new_config a id version = record {
  id = id;
  config_key = a.key;
  value = a.value;
  version = version;
  content_hash = a.content_hash;
  is_active = true;
  description = coalesce a.description "";
  updated_by = a.updated_by;
}

-- The transaction body of `swapConfigVersion`.
unfoldable pub swap_body : Bool → Bool → SwapConfigArgs → Body ConfigTable Err AppConfig
swap_body retire_fails insert_fails a t =
    if retire_fails
    then err db_fault
    else (let retired = update_where (active a.key) (deactivate a.updated_by) t.rows in
        let version = inc_int32 (prev_version a.key t.rows) in
        if insert_fails
        then err db_fault
        else if clashes a.key version retired
        then err config_conflict
        else ok (
          new_config a t.next_id version,
          record t {
            rows = insert_row (new_config a t.next_id version) retired;
            next_id = suc t.next_id;
          },
        ))

-- `getActiveConfig`
unfoldable pub get_active_config : Bool → String → ConfigTable → Result Err AppConfig
get_active_config fails key t =
    if fails
    then err db_fault
    else elim (find? (active key) t.rows) [ none ↦ err not_found | some r ↦ ok r ]

abbrev pub quote : ℕ
quote = 34

-- `strings.HasPrefix(v, "W/")`, cut off.
unfoldable pub strip_weak : Bytes → Bytes
strip_weak (a ∷ b ∷ rest) = if a == b'W' && b == b'/' then rest else a ∷ b ∷ rest
strip_weak v = v

-- The list without its last element, if that is a quote.
unfoldable pub strip_end : Bytes → Option Bytes
strip_end [] = none
strip_end (a ∷ rest) = elim (strip_end rest) [
  | some init ↦ some (a ∷ init)
  | none ↦ elim rest [ [] ↦ if a == quote then some [] else none | _ ∷ _ ↦ none ]
]

-- One pair of surrounding quotes is cut off; a text shorter than two bytes has none.
unfoldable pub strip_quotes : Bytes → Bytes
unfolding strip_end
strip_quotes [] = []
strip_quotes (a ∷ rest) =
    if a == quote then elim (strip_end rest) [ some init ↦ init | none ↦ a ∷ rest ] else a ∷ rest

-- `unquoteETag`
unfoldable pub unquote_etag : Bytes → Bytes
unfolding strip_weak strip_quotes
unquote_etag v = strip_quotes (strip_weak v)

abbrev pub bytes_eq : Bytes → Bytes → Bool
bytes_eq [] [] = true
bytes_eq (a ∷ as') (b ∷ bs) = a == b && bytes_eq as' bs
bytes_eq _ _ = false

-- `etagMatches`
unfoldable pub etag_matches : Bytes → Bytes → Bool
unfolding unquote_etag
etag_matches if_none_match stored = bytes_eq (unquote_etag if_none_match) stored

abbrev pub is_nil : Bytes → Bool
is_nil [] = true
is_nil (_ ∷ _) = false

pub record ConfigResult : Type 0 where
  pub config : Option AppConfig
  pub etag : Bytes
  pub not_modified : Bool

-- `GetConfig`: a header that matches the stored hash is answered without the value.
unfoldable pub get_config : Bool → ConfigTable → String → Bytes → Result Err ConfigResult
get_config fails t key if_none_match = elim (get_active_config fails key t) [
  | err e ↦ err e
  | ok cfg ↦
      if not (is_nil if_none_match) && etag_matches if_none_match cfg.content_hash
      then ok (record { config = none; etag = cfg.content_hash; not_modified = true })
      else ok (record { config = some cfg; etag = cfg.content_hash; not_modified = false })
]

pub record AppConfigUpdate : Type 0 where
  pub value : Option String  -- canonical JSON, none for null
  pub description : Option String

module _ (digest : String → Bytes) where
  -- `PutConfig`
  unfoldable pub put_config :
      (ℕ → Bool) → ConfigTable → String → AppConfigUpdate → ℕ → ConfigTable × Result Err AppConfig
  put_config fail t key in' actor =
      if str_eq key "" then (t, err (validation "key")) else elim in'.value [
        | none ↦ (t, err (validation "value"))
        | some value ↦
            with_tx (fail 0) (fail 3) db_fault
              (swap_body (fail 1) (fail 2) (record {
                key = key;
                value = value;
                content_hash = digest value;
                description = in'.description;
                updated_by = actor_ptr actor;
              }))
              t
      ]
