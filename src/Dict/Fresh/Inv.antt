-- ===== src/Dict/Fresh/Inv.antt =====
-- The contract of backend/internal/dict/model.go: the stored hash of a live type is the digest of
-- its live items.

use check.Common.{
  ℕ, ◌<◌, ◌≡◌, ◌≢◌, String, false, List, [], ◌∷◌, arith, All, update_where, Serial, if◌then◌else◌,
}
use check.Dict.Defs.{Bytes, DictType, DictItem, Store, live_type, hash_rows}
use check.Dict.Repo.{hash_items, bump}

module _ (digest : String → Bytes) where
  abbrev pub FreshRow : List DictItem → DictType → Type 0
  FreshRow items t = t.deleted ≡ false → t.content_hash ≡ hash_items digest (hash_rows t.id items)

  abbrev pub AllFresh : List DictItem → List DictType → Type 0
  AllFresh items types = All (FreshRow items) types

  fresh_head :
      (type_id : ℕ) (items items' : List DictItem) (t : DictType)
      → (t.id ≢ type_id → hash_rows t.id items' ≡ hash_rows t.id items)
      → FreshRow items t
      → FreshRow items' (
          if live_type type_id t
          then bump digest (hash_items digest (hash_rows type_id items')) t
          else t)
  unfolding hash_items
  fresh_head type_id items items' t same h = ground arith

  -- After a change that touches items of one type only, the bump of that type restores freshness.
  pub bump-AllFresh :
      (type_id : ℕ) (items items' : List DictItem) (types : List DictType)
      → ((j : ℕ) → j ≢ type_id → hash_rows j items' ≡ hash_rows j items)
      → AllFresh items types
      → AllFresh items' (
          update_where
            (live_type type_id)
            (bump digest (hash_items digest (hash_rows type_id items')))
            types)
  bump-AllFresh type_id items items' [] same h = tt
  bump-AllFresh type_id items items' (t ∷ ts) same h = (
    fresh_head type_id items items' t (same t.id) h.0,
    bump-AllFresh type_id items items' ts same h.1,
  )

-- The invariant of the dictionary tables.
pub record IsWell (digest : String → Bytes) (s : Store) : Type 0 where
  pub types_serial : Serial DictType.id 0 s.next_type_id s.types
  pub items_serial : Serial DictItem.id 0 s.next_item_id s.items
  pub items_owned : All (λ (r : DictItem). r.dict_type_id < s.next_type_id) s.items
  pub fresh : AllFresh digest s.items s.types
