-- ===== src/Dict/Repo.antt =====
-- The statements of backend/internal/dict/repo.go on the two dictionary tables, and the digest of
-- an item set. SHA-256 in hexadecimal is the parameter `digest`.
use check.Common.{
  ℕ, suc, ◌+◌, String, Bool, true, false, not, ◌&&◌, ◌||◌, Option, none, some, List, [], ℤ,
  wrap_int32, fits_int32, ◌==◌, str_eq, if◌then◌else◌, any, find?, Result, ok, err, coalesce,
  update_where, insert_row, Body,
}
use check.Dict.Defs.{
  Bytes, Err, not_found, code_taken, item_code_taken, db_fault, Scope, DictType, DictItem,
  ProblemRefs, Store, HashItemRow, serialize_items, hash_rows, to_dict_item, live_type, live_item,
}

pub record CreateDictTypeArgs : Type 0 where
  pub code : String
  pub name : String
  pub scope : Scope
  pub description : String
  pub created_by : Option ℕ

pub record UpdateDictTypeArgs : Type 0 where
  pub id : ℕ
  pub name : Option String
  pub description : Option String
  pub is_active : Option Bool
  pub updated_by : Option ℕ

pub record CreateItemArgs : Type 0 where
  pub dict_type_id : ℕ
  pub code : String
  pub label : String
  pub color : Option String
  pub extra : String
  pub sort_order : ℤ
  pub created_by : Option ℕ

pub record UpdateItemArgs : Type 0 where
  pub id : ℕ
  pub label : Option String
  pub set_color : Bool
  pub color : Option String
  pub extra : Option String
  pub sort_order : Option ℤ
  pub is_active : Option Bool
  pub updated_by : Option ℕ

-- `code TEXT NOT NULL UNIQUE` on dict_type counts the soft-deleted rows too.
abbrev pub type_code_held : String → List DictType → Bool
type_code_held code = any (λ t. str_eq t.code code)

-- `uq_dict_item_type_code` counts the live rows only.
abbrev pub item_code_held : ℕ → String → List DictItem → Bool
item_code_held type_id code =
    any (λ r. r.dict_type_id == type_id && str_eq r.code code && not r.deleted)

abbrev pub type_row_exists : ℕ → List DictType → Bool
type_row_exists id = any (λ t. t.id == id)

-- `getDictTypeByCode`
unfoldable pub get_dict_type_by_code : Bool → String → Store → Result Err DictType
get_dict_type_by_code fails code s =
    if fails
    then err db_fault
    else elim (find? (λ t. str_eq t.code code && not t.deleted) s.types) [
      | none ↦ err not_found
      | some t ↦ ok t
    ]

abbrev pub set_type_fields : UpdateDictTypeArgs → DictType → DictType
set_type_fields a t = record t {
  name = coalesce a.name t.name;
  description = coalesce a.description t.description;
  is_active = coalesce a.is_active t.is_active;
  updated_by = a.updated_by;
}

-- `updateDictType`: the item set is untouched, and so are version and hash.
unfoldable pub update_dict_type : Bool → UpdateDictTypeArgs → Body Store Err DictType
update_dict_type fails a s = if fails then err db_fault else elim (find? (live_type a.id) s.types) [
  | none ↦ err not_found
  | some t ↦ ok (
    set_type_fields a t,
    record s { types = update_where (live_type a.id) (set_type_fields a) s.types },
  )
]

abbrev pub drop_type : Option ℕ → DictType → DictType
drop_type by t = record t { deleted = true; is_active = false; updated_by = by }

-- `softDeleteDictType`
unfoldable pub soft_delete_dict_type : Bool → ℕ → Option ℕ → Body Store Err (Unit {0})
soft_delete_dict_type fails id by s =
    if fails
    then err db_fault
    else if any (live_type id) s.types
    then ok (tt, record s { types = update_where (live_type id) (drop_type by) s.types })
    else err not_found

-- `getItemTypeID`
unfoldable pub get_item_type_id : Bool → ℕ → Store → Result Err ℕ
get_item_type_id fails id s =
    if fails
    then err db_fault
    else elim (find? (live_item id) s.items) [ none ↦ err not_found | some r ↦ ok r.dict_type_id ]

abbrev pub new_item : CreateItemArgs → ℕ → DictItem
new_item a id = record {
  id = id;
  dict_type_id = a.dict_type_id;
  code = a.code;
  label = a.label;
  color = a.color;
  extra = a.extra;
  sort_order = a.sort_order;
  is_active = true;
  updated_by = a.created_by;
  deleted = false;
}

abbrev pub wrap_int32? : Option ℤ → Option ℤ
wrap_int32? none = none
wrap_int32? (some n) = some (wrap_int32 n)

-- `createItem`: an order that does not fit the column, a code held within the type, or a type that
-- has no row, is refused.
unfoldable pub create_item_row : Bool → CreateItemArgs → Body Store Err DictItem
create_item_row fails a s =
    if fails || not (fits_int32 a.sort_order)
    then err db_fault
    else if item_code_held a.dict_type_id a.code s.items
    then err item_code_taken
    else if type_row_exists a.dict_type_id s.types
    then ok (
      to_dict_item (new_item a s.next_item_id),
      record s {
        items = insert_row (new_item a s.next_item_id) s.items;
        next_item_id = suc s.next_item_id;
      },
    )
    else err not_found

abbrev pub set_item_fields : UpdateItemArgs → DictItem → DictItem
set_item_fields a r = record r {
  label = coalesce a.label r.label;
  color = if a.set_color then a.color else r.color;
  extra = coalesce a.extra r.extra;
  sort_order = coalesce (wrap_int32? a.sort_order) r.sort_order;
  is_active = coalesce a.is_active r.is_active;
  updated_by = a.updated_by;
}

-- `updateItem`: the statement changes no column of a unique index.
unfoldable pub update_item_row : Bool → UpdateItemArgs → Body Store Err DictItem
update_item_row fails a s = if fails then err db_fault else elim (find? (live_item a.id) s.items) [
  | none ↦ err not_found
  | some r ↦ ok (
    to_dict_item (set_item_fields a r),
    record s { items = update_where (live_item a.id) (set_item_fields a) s.items },
  )
]

abbrev pub drop_item : Option ℕ → DictItem → DictItem
drop_item by r = record r { deleted = true; is_active = false; updated_by = by }

-- `softDeleteItem`
unfoldable pub soft_delete_item : Bool → ℕ → Option ℕ → Body Store Err (Unit {0})
soft_delete_item fails id by s =
    if fails
    then err db_fault
    else if any (live_item id) s.items
    then ok (tt, record s { items = update_where (live_item id) (drop_item by) s.items })
    else err not_found

abbrev pub holds : Option ℕ → ℕ → Bool
holds none id = false
holds (some i) id = i == id

abbrev pub refers_to : ℕ → ProblemRefs → Bool
refers_to id p =
    not p.deleted
    && (holds p.type_item_id id || holds p.status_item_id id || holds p.category_item_id id)

-- `itemIsReferenced`
unfoldable pub item_is_referenced : Bool → ℕ → Store → Result Err Bool
item_is_referenced fails id s = if fails then err db_fault else ok (any (refers_to id) s.problems)

module _ (digest : String → Bytes) where
  -- `hashItems`
  unfoldable pub hash_items : List HashItemRow → Bytes
  hash_items rows = digest (serialize_items rows)

  -- `createDictType`: a new type has no items.
  unfoldable pub create_dict_type : Bool → CreateDictTypeArgs → Body Store Err DictType
  create_dict_type fails a s =
      if fails
      then err db_fault
      else if type_code_held a.code s.types
      then err code_taken
      else (let t : DictType = record {
        id = s.next_type_id;
        code = a.code;
        name = a.name;
        scope = a.scope;
        description = a.description;
        version = 1;
        content_hash = hash_items [];
        is_active = true;
        updated_by = a.created_by;
        deleted = false;
      } in
          ok (t, record s { types = insert_row t s.types; next_type_id = suc s.next_type_id }))

  abbrev pub bump : Bytes → DictType → DictType
  bump hash t = record t { version = t.version + 1; content_hash = hash }

  -- `recomputeTypeHash`: the new hash covers every live item of the type, retired ones included.
  unfoldable pub recompute_type_hash : Bool → Bool → ℕ → Body Store Err (ℕ × Bytes)
  recompute_type_hash load_fails bump_fails type_id s =
      if load_fails
      then err db_fault
      else (let new_hash = hash_items (hash_rows type_id s.items) in
          if bump_fails then err db_fault else elim (find? (live_type type_id) s.types) [
            | none ↦ err not_found
            | some t ↦ ok (
              (t.version + 1, new_hash),
              record s { types = update_where (live_type type_id) (bump new_hash) s.types },
            )
          ])
