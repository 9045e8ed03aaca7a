-- ===== src/Dict/Fresh/Keeps.antt =====
-- The service operations keep the invariant of the dictionary, whatever calls the database fails.
use check.Common.{
  ℕ, ◌≡◌, String, Bool, true, false, Bool-cases, inl, inr, with_tx-keeps, ok, ltb_ℤ, pos, str_eq,
  Result-cases,
}
use check.Dict.Defs.{Bytes, db_fault, Store, DictItem, actor_ptr}
use check.Dict.Repo.{
  CreateItemArgs, UpdateItemArgs, create_item_row, get_item_type_id, update_item_row,
  recompute_type_hash, soft_delete_item, item_is_referenced,
}
use check.Dict.Service.{
  DictItemCreate, DictItemUpdate, create_item_tx, create_item, update_item_tx, update_item, retire,
  retire_or_delete, is_empty?, delete_item_tx, delete_item,
}
use check.Dict.Fresh.Inv.{IsWell}
use check.Dict.Fresh.Recompute.{Touches, recompute-IsWell}
use check.Dict.Fresh.Items.{
  create_item_row-Touches, update_item_row-Touches, soft_delete_item-Touches,
}

module _ (digest : String → Bytes) (fail : ℕ → Bool) (s : Store) (w : IsWell digest s) where
  create_item_tx-IsWell :
      (a : CreateItemArgs) (item : DictItem) (s' : Store)
      → create_item_tx digest fail a s ≡ ok (item, s')
      → IsWell digest s'
  unfolding create_item_tx
  create_item_tx-IsWell a item s' h = elim (Result-cases (create_item_row (fail 1) a s)) [
    | inr (e, p) ↦ cc (rw p at h)
    | inl ((i, s₁), p) ↦
        elim (Result-cases (recompute_type_hash digest (fail 2) (fail 3) a.dict_type_id s₁)) [
          | inr (e, q) ↦ cc (rw (p, q) at h)
          | inl ((v, s₂), q) ↦
              recompute-IsWell digest (fail 2) (fail 3) a.dict_type_id s s₁ s' v w
                (create_item_row-Touches digest s w (fail 1) a s₁ i p) (cc (q, rw (p, q) at h))
        ]
  ]

  update_item_tx-IsWell :
      (a : UpdateItemArgs) (item : DictItem) (s' : Store)
      → update_item_tx digest fail a s ≡ ok (item, s')
      → IsWell digest s'
  unfolding update_item_tx
  update_item_tx-IsWell a item s' h = elim (Result-cases (get_item_type_id (fail 1) a.id s)) [
    | inr (e, g) ↦ cc (rw g at h)
    | inl (t, g) ↦ elim (Result-cases (update_item_row (fail 2) a s)) [
      | inr (e, p) ↦ cc (rw (g, p) at h)
      | inl ((i, s₁), p) ↦ elim (Result-cases (recompute_type_hash digest (fail 3) (fail 4) t s₁)) [
        | inr (e, q) ↦ cc (rw (g, p, q) at h)
        | inl ((v, s₂), q) ↦
            recompute-IsWell digest (fail 3) (fail 4) t s s₁ s' v w
              (update_item_row-Touches digest s w (fail 1) (fail 2) a t s₁ i g p)
              (cc (q, rw (g, p, q) at h))
      ]
    ]
  ]

  -- Retired or deleted, an item leaves the items of its own type only.
  retire_or_delete-Touches :
      (referenced ft fails : Bool) (id actor type_id : ℕ) (s₁ : Store) (r : Bool)
      → get_item_type_id ft id s ≡ ok type_id
      → retire_or_delete referenced fails id actor s ≡ ok (r, s₁)
      → Touches type_id s s₁
  unfolding retire_or_delete
  retire_or_delete-Touches true ft fails id actor type_id s₁ r g h =
      elim (Result-cases (update_item_row fails (retire id actor) s)) [
        | inr (e, p) ↦ cc (rw p at h)
        | inl ((i, s₂), p) ↦
            update_item_row-Touches digest s w ft fails (retire id actor) type_id s₁ i g
              (cc (p, rw p at h))
      ]
  retire_or_delete-Touches false ft fails id actor type_id s₁ r g h =
      elim (Result-cases (soft_delete_item fails id (actor_ptr actor) s)) [
        | inr (e, p) ↦ cc (rw p at h)
        | inl ((u, s₂), p) ↦
            soft_delete_item-Touches digest s w ft fails id (actor_ptr actor) type_id s₁ u g
              (cc (p, rw p at h))
      ]

  delete_item_tx-IsWell :
      (id actor : ℕ) (r : Bool) (s' : Store)
      → delete_item_tx digest fail id actor s ≡ ok (r, s')
      → IsWell digest s'
  unfolding delete_item_tx
  delete_item_tx-IsWell id actor r s' h = elim (Result-cases (get_item_type_id (fail 1) id s)) [
    | inr (e, g) ↦ cc (rw g at h)
    | inl (t, g) ↦ elim (Result-cases (item_is_referenced (fail 2) id s)) [
      | inr (e, b) ↦ cc (rw (g, b) at h)
      | inl (referenced, b) ↦
          elim (Result-cases (retire_or_delete referenced (fail 3) id actor s)) [
            | inr (e, p) ↦ cc (rw (g, b, p) at h)
            | inl ((i, s₁), p) ↦
                elim (Result-cases (recompute_type_hash digest (fail 4) (fail 5) t s₁)) [
                  | inr (e, q) ↦ cc (rw (g, b, p, q) at h)
                  | inl ((v, s₂), q) ↦
                      recompute-IsWell digest (fail 4) (fail 5) t s s₁ s' v w
                        (retire_or_delete-Touches referenced (fail 1) (fail 3) id actor t s₁ i g p)
                        (cc (q, rw (g, b, p, q) at h))
                ]
          ]
    ]
  ]

  -- Creating an item keeps the tables well-formed: the hash of every live type stays the digest of
  -- its live items, on every branch and whatever calls the database fails.
  pub create_item-IsWell :
      (in' : DictItemCreate) (actor : ℕ) → IsWell digest (create_item digest fail s in' actor).0
  unfolding create_item
  create_item-IsWell in' actor = elim (Bool-cases (str_eq in'.code "")) [
    | inl c ↦ rw c w
    | inr c ↦ elim (Bool-cases (str_eq in'.label "")) [
      | inl l ↦ rw (c, l) w
      | inr l ↦ elim (Bool-cases (ltb_ℤ (pos 0) in'.dict_type_id)) [
        | inr n ↦ rw (c, l, n) w
        | inl p ↦
            rw (c, l, p)
              (with_tx-keeps db_fault (IsWell digest) s w (fail 0) (fail 4) _
                (λ item s' h. create_item_tx-IsWell _ item s' h))
      ]
    ]
  ]

  -- Updating or retiring an item keeps the tables well-formed: the hash of every live type stays the
  -- digest of its live items, on every branch and whatever calls the database fails.
  pub update_item-IsWell :
      (id : ℕ) (in' : DictItemUpdate) (actor : ℕ)
      → IsWell digest (update_item digest fail s id in' actor).0
  unfolding update_item
  update_item-IsWell id in' actor = elim (Bool-cases (is_empty? in'.label)) [
    | inl l ↦ rw l w
    | inr l ↦ rw l (
        with_tx-keeps db_fault (IsWell digest) s w (fail 0) (fail 5) _
          (λ item s' h. update_item_tx-IsWell _ item s' h))
  ]

  -- Deleting an item, or retiring it where it is referred to, keeps the tables well-formed: the hash
  -- of every live type stays the digest of its live items, whatever calls the database fails.
  pub delete_item-IsWell : (id actor : ℕ) → IsWell digest (delete_item digest fail s id actor).0
  unfolding delete_item
  delete_item-IsWell id actor =
      with_tx-keeps db_fault (IsWell digest) s w (fail 0) (fail 6)
        (delete_item_tx digest fail id actor) (λ r s' h. delete_item_tx-IsWell id actor r s' h)
