-- ===== src/Dict/Service.antt =====
-- The dictionary's service operations (backend/internal/dict/service.go).
use check.Common.{
  ℕ, String, Bool, true, false, Option, none, some, ℤ, pos, pos_part, ltb_ℤ, str_eq, if◌then◌else◌,
  Result, ok, err, ◌>>=◌, Body, with_tx,
}
use check.Dict.Defs.{
  Bytes, Err, db_fault, validation, Scope, DictType, DictItem, Store, actor_ptr, extra_json,
  str_or_empty,
}
use check.Dict.Repo.{
  CreateItemArgs, UpdateItemArgs, get_item_type_id, create_item_row, update_item_row,
  soft_delete_item, item_is_referenced, create_dict_type, update_dict_type, soft_delete_dict_type,
  recompute_type_hash,
}

pub record DictTypeCreate : Type 0 where
  pub code : String
  pub name : String
  pub scope : Option Scope  -- none for a text that is no scope
  pub description : Option String

pub record DictTypeUpdate : Type 0 where
  pub name : Option String
  pub description : Option String
  pub is_active : Option Bool

pub record DictItemCreate : Type 0 where
  pub dict_type_id : ℤ
  pub code : String
  pub label : String
  pub color : Option String
  pub extra : Option String
  pub sort_order : Option ℤ

pub record DictItemUpdate : Type 0 where
  pub label : Option String
  pub color : Option String
  pub extra : Option String
  pub sort_order : Option ℤ
  pub is_active : Option Bool

-- A statement outside a transaction: an error leaves the store as it is.
abbrev pub run : {A : Type 0} → Body Store Err A → Store → Store × Result Err A
run body s = elim (body s) [ ok (a, s') ↦ (s', ok a) | err e ↦ (s, err e) ]

abbrev pub is_empty? : Option String → Bool
is_empty? none = false
is_empty? (some s) = str_eq s ""

abbrev pub or_zero : Option ℤ → ℤ
or_zero none = pos 0
or_zero (some n) = n

-- `UpdateDictType`
unfoldable pub update_type : Bool → Store → ℕ → DictTypeUpdate → ℕ → Store × Result Err DictType
unfolding update_dict_type
update_type fails s id in' actor =
    if is_empty? in'.name
    then (s, err (validation "name"))
    else run
        (update_dict_type fails (record {
          id = id;
          name = in'.name;
          description = in'.description;
          is_active = in'.is_active;
          updated_by = actor_ptr actor;
        }))
        s

-- `DeleteDictType`
unfoldable pub delete_type : Bool → Store → ℕ → ℕ → Store × Result Err (Unit {0})
unfolding soft_delete_dict_type
delete_type fails s id actor = run (soft_delete_dict_type fails id (actor_ptr actor)) s

abbrev pub retire : ℕ → ℕ → UpdateItemArgs
retire id actor = record {
  id = id;
  label = none;
  set_color = false;
  color = none;
  extra = none;
  sort_order = none;
  is_active = some false;
  updated_by = actor_ptr actor;
}

-- A referenced item is retired (true); any other is soft-deleted (false).
unfoldable pub retire_or_delete : Bool → Bool → ℕ → ℕ → Body Store Err Bool
retire_or_delete referenced fails id actor s =
    if referenced
    then (do (item, s₁) ← update_item_row fails (retire id actor) s; ok (true, s₁))
    else (do (u, s₁) ← soft_delete_item fails id (actor_ptr actor) s; ok (false, s₁))

module _ (digest : String → Bytes) where
  -- `CreateDictType`
  unfoldable pub create_type : Bool → Store → DictTypeCreate → ℕ → Store × Result Err DictType
  unfolding create_dict_type
  create_type fails s in' actor =
      if str_eq in'.code ""
      then (s, err (validation "code"))
      else if str_eq in'.name ""
      then (s, err (validation "name"))
      else elim in'.scope [
        | none ↦ (s, err (validation "scope"))
        | some scope ↦
            run
              (create_dict_type digest fails (record {
                code = in'.code;
                name = in'.name;
                scope = scope;
                description = str_or_empty in'.description;
                created_by = actor_ptr actor;
              }))
              s
      ]

  -- The transaction body of `CreateItem`: insert, then recompute the hash of the type.
  unfoldable pub create_item_tx : (ℕ → Bool) → CreateItemArgs → Body Store Err DictItem
  create_item_tx fail a s = do
    (item, s₁) ← create_item_row (fail 1) a s
    (v, s₂) ← recompute_type_hash digest (fail 2) (fail 3) a.dict_type_id s₁
    ok (item, s₂)

  -- `CreateItem`
  unfoldable pub create_item : (ℕ → Bool) → Store → DictItemCreate → ℕ → Store × Result Err DictItem
  create_item fail s in' actor =
      if str_eq in'.code ""
      then (s, err (validation "code"))
      else if str_eq in'.label ""
      then (s, err (validation "label"))
      else if ltb_ℤ (pos 0) in'.dict_type_id
      then with_tx (fail 0) (fail 4) db_fault
          (create_item_tx fail (record {
            dict_type_id = pos_part in'.dict_type_id;
            code = in'.code;
            label = in'.label;
            color = in'.color;
            extra = extra_json in'.extra;
            sort_order = or_zero in'.sort_order;
            created_by = actor_ptr actor;
          }))
          s
      else (s, err (validation "dict_type_id"))

  -- The transaction body of `UpdateItem`.
  unfoldable pub update_item_tx : (ℕ → Bool) → UpdateItemArgs → Body Store Err DictItem
  update_item_tx fail a s = do
    type_id ← get_item_type_id (fail 1) a.id s
    (item, s₁) ← update_item_row (fail 2) a s
    (v, s₂) ← recompute_type_hash digest (fail 3) (fail 4) type_id s₁
    ok (item, s₂)

  -- `UpdateItem`: the color is always set from the request.
  unfoldable pub update_item :
      (ℕ → Bool) → Store → ℕ → DictItemUpdate → ℕ → Store × Result Err DictItem
  update_item fail s id in' actor =
      if is_empty? in'.label
      then (s, err (validation "label"))
      else with_tx (fail 0) (fail 5) db_fault
          (update_item_tx fail (record {
            id = id;
            label = in'.label;
            set_color = true;
            color = in'.color;
            extra = in'.extra;
            sort_order = in'.sort_order;
            is_active = in'.is_active;
            updated_by = actor_ptr actor;
          }))
          s

  -- The transaction body of `DeleteItem`.
  unfoldable pub delete_item_tx : (ℕ → Bool) → ℕ → ℕ → Body Store Err Bool
  delete_item_tx fail id actor s = do
    type_id ← get_item_type_id (fail 1) id s
    referenced ← item_is_referenced (fail 2) id s
    (retired, s₁) ← retire_or_delete referenced (fail 3) id actor s
    (v, s₂) ← recompute_type_hash digest (fail 4) (fail 5) type_id s₁
    ok (retired, s₂)

  -- `DeleteItem`
  unfoldable pub delete_item : (ℕ → Bool) → Store → ℕ → ℕ → Store × Result Err Bool
  delete_item fail s id actor = with_tx (fail 0) (fail 6) db_fault (delete_item_tx fail id actor) s
