-- ===== src/Dict/Fresh/Recompute.antt =====
-- `recomputeTypeHash` completes a change of one type's items.
use check.Common.{
  ℕ, ◌+◌, ◌<◌, ◌≡◌, refl, ◌≢◌, String, Bool, some, arith, All, update_where, Serial, Serial-update,
  find?, ok,
}
use check.Dict.Defs.{Bytes, DictType, DictItem, Store, live_type, hash_rows}
use check.Dict.Repo.{hash_items, bump, recompute_type_hash}
use check.Dict.Fresh.Inv.{bump-AllFresh, IsWell}

-- `s₁` differs from `s` in items of one type, and is well-formed but for that type's hash.
pub record Touches (type_id : ℕ) (s s₁ : Store) : Type 0 where
  pub same_types : s₁.types ≡ s.types
  pub same_next : s₁.next_type_id ≡ s.next_type_id
  pub items_serial : Serial DictItem.id 0 s₁.next_item_id s₁.items
  pub items_owned : All (λ (r : DictItem). r.dict_type_id < s.next_type_id) s₁.items
  pub others : (j : ℕ) → j ≢ type_id → hash_rows j s₁.items ≡ hash_rows j s.items

module _ (digest : String → Bytes) where
  abbrev pub rehashed : ℕ → Store → Store
  rehashed type_id s = record s {
    types =
        update_where (live_type type_id)
          (bump digest (hash_items digest (hash_rows type_id s.items))) s.types;
  }

  -- A successful recomputation bumps the live type and stores the digest of its items.
  pub recompute-eq-ok :
      (lf bf : Bool) (type_id : ℕ) (s s₂ : Store) (v : ℕ × Bytes)
      → recompute_type_hash digest lf bf type_id s ≡ ok (v, s₂)
      → (s₂ ≡ rehashed type_id s)
        × (t : DictType) × (find? (live_type type_id) s.types ≡ some t)
        × (v.0 ≡ t.version + 1)
  unfolding recompute_type_hash
  recompute-eq-ok lf bf type_id s s₂ v h = ground arith

  rehashed-IsWell :
      (type_id : ℕ) (s s₁ : Store)
      → IsWell digest s
      → Touches type_id s s₁
      → IsWell digest (rehashed type_id s₁)
  rehashed-IsWell type_id s s₁ w t = record {
    types_serial =
        rw (t.same_types, t.same_next)
          (Serial-update DictType.id 0 s.next_type_id (live_type type_id)
            (bump digest (hash_items digest (hash_rows type_id s₁.items))) s.types (λ x. refl)
            w.types_serial);
    items_serial = t.items_serial;
    items_owned = rw t.same_next t.items_owned;
    fresh =
        rw t.same_types (bump-AllFresh digest type_id s.items s₁.items s.types t.others w.fresh);
  }

  pub recompute-IsWell :
      (lf bf : Bool) (type_id : ℕ) (s s₁ s₂ : Store) (v : ℕ × Bytes)
      → IsWell digest s
      → Touches type_id s s₁
      → recompute_type_hash digest lf bf type_id s₁ ≡ ok (v, s₂)
      → IsWell digest s₂
  recompute-IsWell lf bf type_id s s₁ s₂ v w t h =
      rw ((recompute-eq-ok lf bf type_id s₁ s₂ v h).0) (rehashed-IsWell type_id s s₁ w t)
