-- ===== src/Dict/Defs.antt =====
-- The dictionary tables and their statements (backend/internal/dict/model.go, repo.go).
-- A row keeps the columns that the code reads or writes; `deleted` is `deleted_at IS NOT NULL`, and
-- the time stamps of a row are left out. The tables `dict_type` and `dict_item` are in the order of
-- their serial ids, so `ORDER BY id` is the order of the list. `fail i` says that the database
-- reports an unexpected error at the i-th call of an operation.
use Prim.Native.String.{◌++◌ as str_append}
use check.Common.{
  ℕ, zero, suc, ◌/◌, ◌%◌, String, Bool, true, false, not, ◌&&◌, Option, none, some, List, [], ◌∷◌,
  ℤ, pos, negsuc, ltb, ◌==◌, str_eq, if◌then◌else◌,
}

abbrev pub Bytes : Type 0
Bytes = List ℕ

pub data Err : Type 0 where
  not_found code_taken item_code_taken config_conflict db_fault : Err
  validation : String → Err

pub data Scope : Type 0 where
  problem_type problem_status problem_category project_field capture_preset misc : Scope

pub record DictType : Type 0 where
  pub id : ℕ
  pub code : String
  pub name : String
  pub scope : Scope
  pub description : String
  pub version : ℕ
  pub content_hash : Bytes
  pub is_active : Bool
  pub updated_by : Option ℕ
  pub deleted : Bool

pub record DictItem : Type 0 where
  pub id : ℕ
  pub dict_type_id : ℕ
  pub code : String
  pub label : String
  pub color : Option String
  pub extra : String
  pub sort_order : ℤ
  pub is_active : Bool
  pub updated_by : Option ℕ
  pub deleted : Bool

-- The columns of a problem that refer to the dictionary.
pub record ProblemRefs : Type 0 where
  pub type_item_id : Option ℕ
  pub status_item_id : Option ℕ
  pub category_item_id : Option ℕ
  pub deleted : Bool

pub record Store : Type 0 where
  pub types : List DictType
  pub items : List DictItem
  pub problems : List ProblemRefs
  pub next_type_id : ℕ
  pub next_item_id : ℕ

pub record HashItemRow : Type 0 where
  pub id : ℕ
  pub code : String
  pub label : String
  pub color : String
  pub sort_order : ℤ
  pub is_active : Bool

infixr 60 ◌<>◌
abbrev pub ◌<>◌ : String → String → String
s <> t = str_append s t

digit : ℕ → String
digit zero = "0"
digit (suc zero) = "1"
digit (suc (suc zero)) = "2"
digit (suc (suc (suc zero))) = "3"
digit (suc (suc (suc (suc zero)))) = "4"
digit (suc (suc (suc (suc (suc zero))))) = "5"
digit (suc (suc (suc (suc (suc (suc zero)))))) = "6"
digit (suc (suc (suc (suc (suc (suc (suc zero))))))) = "7"
digit (suc (suc (suc (suc (suc (suc (suc (suc zero)))))))) = "8"
digit _ = "9"

-- The digits of `n`, most significant first; a number has fewer digits than its fuel `n + 1`.
digits_from : ℕ → ℕ → String → String
digits_from zero n acc = acc
digits_from (suc fuel) n acc =
    let more = digits_from fuel (n / 10) (digit (n % 10) <> acc) in
    if ltb n 10 then digit n <> acc else more

-- `strconv.FormatInt` and `strconv.Itoa`
format_int : ℤ → String
unfolding digits_from digit
format_int (pos n) = digits_from (suc n) n ""
format_int (negsuc n) = "-" <> digits_from (suc (suc n)) (suc n) ""

format_bool : Bool → String
format_bool true = "true"
format_bool false = "false"

-- The text that `hashItems` writes for one row: id|code|label|color|sort_order|is_active.
unfoldable pub serialize_item : HashItemRow → String
unfolding format_int format_bool
serialize_item r =
    format_int (pos r.id)
    <> "|"
    <> r.code
    <> "|"
    <> r.label
    <> "|"
    <> r.color
    <> "|"
    <> format_int r.sort_order
    <> "|"
    <> format_bool r.is_active
    <> "\n"

unfoldable pub serialize_items : List HashItemRow → String
serialize_items [] = ""
serialize_items (r ∷ rs) = serialize_item r <> serialize_items rs

-- `color` is scanned into a pointer, and a null stays the empty text.
abbrev pub str_or_empty : Option String → String
str_or_empty none = ""
str_or_empty (some s) = s

abbrev pub color_ptr : String → Option String
color_ptr s = if str_eq s "" then none else some s

unfoldable pub to_hash_row : DictItem → HashItemRow
to_hash_row r = record {
  id = r.id;
  code = r.code;
  label = r.label;
  color = str_or_empty r.color;
  sort_order = r.sort_order;
  is_active = r.is_active;
}

-- `actorPtr`: the unauthenticated id 0 is stored as a null.
abbrev pub actor_ptr : ℕ → Option ℕ
actor_ptr id = if id == 0 then none else some id

abbrev pub extra_json : Option String → String
extra_json none = "{}"
extra_json (some m) = m

-- `toDictItem`: what a client sees of a row.
abbrev pub to_dict_item : DictItem → DictItem
to_dict_item r = record r { color = elim r.color [ none ↦ none | some c ↦ color_ptr c ] }

abbrev pub live_type : ℕ → DictType → Bool
live_type id t = t.id == id && not t.deleted

abbrev pub live_item : ℕ → DictItem → Bool
live_item id r = r.id == id && not r.deleted

abbrev pub live_item_of : ℕ → DictItem → Bool
live_item_of type_id r = r.dict_type_id == type_id && not r.deleted

-- The rows that `recomputeTypeHash` reads, in the order of their ids.
unfoldable pub hash_rows : ℕ → List DictItem → List HashItemRow
hash_rows type_id [] = []
hash_rows type_id (r ∷ rs) =
    let rest = hash_rows type_id rs in if live_item_of type_id r then to_hash_row r ∷ rest else rest
