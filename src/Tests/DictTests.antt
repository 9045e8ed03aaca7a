-- ===== src/Tests/DictTests.antt =====
-- The dictionary's theorems at concrete tables.
use Prim.Native.String.{len}
use check.Common.{
  ◌<◌, List, ℕ, ◌≡◌, refl, String, Bool, true, false, none, some, [], ◌∷◌, pos, ok, arith, ◌⊎◌, any,
  find?, with_tx,
}
use check.Dict.Defs.{Bytes, problem_status, DictType, DictItem, Store, live_item, hash_rows}
use check.Dict.Repo.{
  hash_items, refers_to, get_item_type_id, item_is_referenced, update_item_row, recompute_type_hash,
}
use check.Dict.Service.{
  DictTypeCreate, DictTypeUpdate, DictItemCreate, DictItemUpdate, create_item, update_item,
  delete_item, delete_item_tx, retire_or_delete,
}
use check.Dict.Items.{
  hash_items-split, split_row, delete_item_lem, item_operations_atomic, after_items, Settles,
}
use check.Dict.Fresh.Inv.{IsWell}
use check.Dict.Fresh.Recompute.{rehashed}
use check.Dict.Fresh.Runs.{
  Call, item_created, item_updated, item_deleted, type_created, type_updated, type_deleted, run,
  run-IsWell,
}
use check.Dict.Config.{
  ConfigTable, AppConfigUpdate, put_config, get_config, etag_matches, unquote_etag, strip_weak,
  strip_quotes, strip_end,
}
use check.Dict.Config.History.{IsVersioned, count, put_config-IsVersioned}
use check.Dict.Config.Etag.{etag_matches_sound, quoted, weak}
use check.Dict.Config.RoundTrip.{put_config-get_config, request, written}

-- A digest that tells texts of different lengths apart.
abbrev length_digest : String → Bytes
length_digest s = len s ∷ []

abbrev no_failure : ℕ → Bool
no_failure _ = false

abbrev status_item : DictItem
status_item = record {
  id = 1;
  dict_type_id = 1;
  code = "OPEN";
  label = "Open";
  color = some "#f00";
  extra = "{}";
  sort_order = pos 1;
  is_active = true;
  updated_by = none;
  deleted = false;
}

status_hash : Bytes
unfolding hash_items hash_rows
status_hash = hash_items length_digest (hash_rows 1 (status_item ∷ []))

abbrev status_type : DictType
status_type = record {
  id = 1;
  code = "problem_status";
  name = "Status";
  scope = problem_status;
  description = "";
  version = 2;
  content_hash = status_hash;
  is_active = true;
  updated_by = none;
  deleted = false;
}

abbrev small_store : Store
small_store = record {
  types = status_type ∷ [];
  items = status_item ∷ [];
  problems =
      record {
        type_item_id = none;
        status_item_id = some 1;
        category_item_id = none;
        deleted = false;
      }
      ∷ [];
  next_type_id = 2;
  next_item_id = 2;
}

small_store-IsWell : IsWell length_digest small_store
unfolding status_hash
small_store-IsWell = record {
  types_serial = (omega arith, omega arith);
  items_serial = (omega arith, omega arith);
  items_owned = (omega arith, tt);
  fresh = (λ _. refl, tt);
}

abbrev new_item_request : DictItemCreate
new_item_request = record {
  dict_type_id = pos 1;
  code = "DONE";
  label = "Done";
  color = none;
  extra = none;
  sort_order = some (pos 2);
}

abbrev relabel : DictItemUpdate
relabel = record {
  label = some "Opened";
  color = none;
  extra = none;
  sort_order = none;
  is_active = none;
}

abbrev new_type_request : DictTypeCreate
new_type_request = record {
  code = "kind";
  name = "Kind";
  scope = some problem_status;
  description = none;
}

abbrev rename : DictTypeUpdate
rename = record { name = some "State"; description = none; is_active = some false }

abbrev all_operations : List Call
all_operations =
    item_created no_failure new_item_request 7
    ∷ item_updated no_failure 1 relabel 7
    ∷ item_deleted no_failure 1 7
    ∷ type_created false new_type_request 7
    ∷ type_updated false 1 rename 7
    ∷ type_deleted false 1 7
    ∷ []

run-IsWell_example : IsWell length_digest (run length_digest all_operations small_store)
run-IsWell_example = run-IsWell length_digest all_operations small_store small_store-IsWell

delete_item-retires : (delete_item length_digest no_failure small_store 1 7).1 ≡ ok true
unfolding delete_item delete_item_tx with_tx get_item_type_id item_is_referenced retire_or_delete
    update_item_row recompute_type_hash
delete_item-retires = refl

delete_item_lem_example :
    (true ≡ any (refers_to 1) small_store.problems)
    × (x : DictItem) × (find? (live_item 1) small_store.items ≡ some x)
    × ((delete_item length_digest no_failure small_store 1 7).0
        ≡ rehashed length_digest x.dict_type_id
            (record small_store { items = after_items length_digest small_store 1 7 true }))
delete_item_lem_example =
    delete_item_lem length_digest small_store 1 7 no_failure true delete_item-retires

hash_items-split_example :
    hash_items length_digest (split_row 1 "a|b" "c" "" (pos 0) true ∷ [])
    ≡ hash_items length_digest (split_row 1 "a" "b|c" "" (pos 0) true ∷ [])
hash_items-split_example = hash_items-split length_digest 1 "a" "b" "c" "" (pos 0) true []

item_operations_atomic_example :
    Settles length_digest no_failure small_store
      (create_item length_digest no_failure small_store new_item_request 7)
    × Settles length_digest no_failure small_store
        (update_item length_digest no_failure small_store 1 relabel 7)
    × Settles length_digest no_failure small_store
        (delete_item length_digest no_failure small_store 1 7)
item_operations_atomic_example =
    item_operations_atomic length_digest no_failure small_store new_item_request relabel 1 7

abbrev capture_update : AppConfigUpdate
capture_update = record { value = some "[1]"; description = none }

abbrev no_configs : ConfigTable
no_configs = record { rows = []; next_id = 1 }

-- After a first write of the key.
abbrev configs : ConfigTable
configs = (put_config length_digest no_failure no_configs "capture" capture_update 7).0

configs-IsVersioned : IsVersioned configs
configs-IsVersioned =
    put_config-IsVersioned length_digest no_failure no_configs "capture" capture_update 7
      (record { at = λ key. tt }) (omega arith)

one_version : count "capture" configs.rows < 2147483647
unfolding put_config check.Dict.Config.swap_body check.Common.with_tx
one_version = omega arith

put_config-IsVersioned_example :
    IsVersioned (put_config length_digest no_failure configs "capture" capture_update 7).0
put_config-IsVersioned_example =
    put_config-IsVersioned length_digest no_failure configs "capture" capture_update 7
      configs-IsVersioned one_version

put_config-get_config_example :
    let t' =
      (put_config length_digest
        (λ _. false)
        configs
        "capture"
        (request length_digest configs "capture" "[2]" none 7)
        7).0 in
    (get_config false t' "capture" []
      ≡ ok (record {
        config = some (written length_digest configs "capture" "[2]" none 7);
        etag = length_digest "[2]";
        not_modified = false;
      }))
    × (get_config false t' "capture" (quoted (length_digest "[2]"))
        ≡ ok (record { config = none; etag = length_digest "[2]"; not_modified = true }))
put_config-get_config_example =
    put_config-get_config length_digest configs "capture" "[2]" none 7 configs-IsVersioned refl
      one_version

weak-matches : etag_matches (weak (quoted (5 ∷ []))) (5 ∷ []) ≡ true
unfolding etag_matches unquote_etag strip_weak strip_quotes strip_end
weak-matches = refl

etag_matches_sound_example :
    (weak (quoted (5 ∷ [])) ≡ 5 ∷ [])
    ⊎ (weak (quoted (5 ∷ [])) ≡ quoted (5 ∷ []))
    ⊎ (weak (quoted (5 ∷ [])) ≡ weak (5 ∷ []))
    ⊎ (weak (quoted (5 ∷ [])) ≡ weak (quoted (5 ∷ [])))
etag_matches_sound_example = etag_matches_sound (weak (quoted (5 ∷ []))) (5 ∷ []) weak-matches
