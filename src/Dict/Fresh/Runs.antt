-- ===== src/Dict/Fresh/Runs.antt =====
-- The administrator's operations on the dictionary, one after another (backend/internal/dict/service.go).
use check.Common.{ℕ, String, Bool, List, [], ◌∷◌}
use check.Dict.Defs.{Bytes, Store}
use check.Dict.Service.{
  DictItemCreate, DictItemUpdate, DictTypeCreate, DictTypeUpdate, create_item, update_item,
  delete_item, create_type, update_type, delete_type,
}
use check.Dict.Fresh.Inv.{IsWell}
use check.Dict.Fresh.Keeps.{create_item-IsWell, update_item-IsWell, delete_item-IsWell}
use check.Dict.Fresh.Types.{create_type-IsWell, update_type-IsWell, delete_type-IsWell}

-- An operation with its request, its actor and the database calls of it that fail.
pub data Call : Type 0 where
  item_created : (ℕ → Bool) → DictItemCreate → ℕ → Call
  item_updated : (ℕ → Bool) → ℕ → DictItemUpdate → ℕ → Call
  item_deleted : (ℕ → Bool) → ℕ → ℕ → Call
  type_created : Bool → DictTypeCreate → ℕ → Call
  type_updated : Bool → ℕ → DictTypeUpdate → ℕ → Call
  type_deleted : Bool → ℕ → ℕ → Call

module _ (digest : String → Bytes) where
  abbrev pub step : Call → Store → Store
  step (item_created fail in' actor) s = (create_item digest fail s in' actor).0
  step (item_updated fail id in' actor) s = (update_item digest fail s id in' actor).0
  step (item_deleted fail id actor) s = (delete_item digest fail s id actor).0
  step (type_created fails in' actor) s = (create_type digest fails s in' actor).0
  step (type_updated fails id in' actor) s = (update_type fails s id in' actor).0
  step (type_deleted fails id actor) s = (delete_type fails s id actor).0

  abbrev pub run : List Call → Store → Store
  run [] s = s
  run (call ∷ calls) s = run calls (step call s)

  step-IsWell : (call : Call) (s : Store) → IsWell digest s → IsWell digest (step call s)
  step-IsWell (item_created fail in' actor) s w = create_item-IsWell digest fail s w in' actor
  step-IsWell (item_updated fail id in' actor) s w = update_item-IsWell digest fail s w id in' actor
  step-IsWell (item_deleted fail id actor) s w = delete_item-IsWell digest fail s w id actor
  step-IsWell (type_created fails in' actor) s w = create_type-IsWell digest fails s w in' actor
  step-IsWell (type_updated fails id in' actor) s w =
      update_type-IsWell digest fails s w id in' actor
  step-IsWell (type_deleted fails id actor) s w = delete_type-IsWell digest fails s w id actor

  -- Any sequence of creations, updates and deletions of items and types, whatever calls the database
  -- fails, keeps the tables well-formed: the hash of every live type stays the digest of its live items.
  pub run-IsWell : (calls : List Call) (s : Store) → IsWell digest s → IsWell digest (run calls s)
  run-IsWell [] s w = w
  run-IsWell (call ∷ calls) s w = run-IsWell calls (step call s) (step-IsWell call s w)
