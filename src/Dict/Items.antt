-- ===== src/Dict/Items.antt =====
-- What the item operations do: the bump of the owning type's version, the retirement of an item in
-- use, and what the digest cannot tell apart.
use text.Mathlib.TextLemmas.{append_assoc}
use check.Common.{
  ℕ, ◌≡◌, refl, ap, ◌∙◌, String, Bool, true, false, some, List, ◌∷◌, arith, str_eq, if◌then◌else◌,
  find?, any, Result, ok, err, Result-cases, Option-cases, Bool-cases, inl, inr, ◌⊎◌, ℤ,
  update_where, with_tx-eq-ok, with_tx_atomic, ltb_ℤ, pos,
}
use check.Dict.Defs.{
  Bytes, Err, db_fault, Store, DictItem, HashItemRow, ◌<>◌, serialize_item, serialize_items,
  actor_ptr, live_item,
}
use check.Dict.Repo.{
  hash_items, refers_to, item_is_referenced, recompute_type_hash, get_item_type_id, update_item_row,
  soft_delete_item,
}
use check.Dict.Service.{
  retire_or_delete, delete_item_tx, delete_item, update_item, DictItemUpdate, create_item,
  DictItemCreate, is_empty?,
}
use check.Dict.Fresh.Recompute.{recompute-eq-ok, rehashed}

-- Two rows whose code and label share their texts out differently around a separator.
abbrev pub split_row : ℕ → String → String → String → ℤ → Bool → HashItemRow
split_row id code label color sort_order is_active = record {
  id = id;
  code = code;
  label = label;
  color = color;
  sort_order = sort_order;
  is_active = is_active;
}

-- The digest does not tell a separator inside a code or a label from the one between them: the
-- item with code `x|y` and label `z` has the digest of the item with code `x` and label `y|z`,
-- whatever the digest function is.
pub hash_items-split :
    (digest : String → Bytes) (id : ℕ) (x y z color : String) (sort_order : ℤ) (is_active : Bool)
    (rest : List HashItemRow)
    → hash_items digest (split_row id (x <> "|" <> y) z color sort_order is_active ∷ rest)
      ≡ hash_items digest (split_row id x (y <> "|" <> z) color sort_order is_active ∷ rest)
unfolding hash_items serialize_item serialize_items
hash_items-split digest id x y z color sort_order is_active rest = simp append_assoc

module _ (digest : String → Bytes) (s : Store) (id actor : ℕ) where
  item_is_referenced-eq :
      (b r : Bool) → item_is_referenced b id s ≡ ok r → r ≡ any (refers_to id) s.problems
  unfolding item_is_referenced
  item_is_referenced-eq b r h = ground arith

  -- A retired row stays, inactive; a deleted row is marked as deleted.
  abbrev pub closed : Bool → DictItem → DictItem
  closed retired x = record x {
    is_active = false;
    updated_by = actor_ptr actor;
    deleted = if retired then x.deleted else true;
  }

  abbrev pub after_items : Bool → List DictItem
  after_items retired = update_where (live_item id) (closed retired) s.items

  retire_or_delete-eq :
      (referenced b r : Bool) (s₁ : Store)
      → retire_or_delete referenced b id actor s ≡ ok (r, s₁)
      → (r ≡ referenced) × (s₁ ≡ record s { items = after_items referenced })
  unfolding retire_or_delete update_item_row soft_delete_item
  retire_or_delete-eq true b r s₁ h = ground arith
  retire_or_delete-eq false b r s₁ h = ground arith

  get_item_type_id-eq :
      (b : Bool) (t : ℕ)
      → get_item_type_id b id s ≡ ok t
      → (x : DictItem) × (find? (live_item id) s.items ≡ some x) × (t ≡ x.dict_type_id)
  unfolding get_item_type_id
  get_item_type_id-eq b t h = elim (Bool-cases b) [
    | inl e ↦ absurd (cc (rw e at h))
    | inr e ↦ elim (Option-cases (find? (live_item id) s.items)) [
      | inl n ↦ absurd (cc (rw (e, n) at h))
      | inr (x, f) ↦ (x, f, cc (rw (e, f) at h))
    ]
  ]

  delete_item_tx-eq :
      (fail : ℕ → Bool) (r : Bool) (s' : Store)
      → delete_item_tx digest fail id actor s ≡ ok (r, s')
      → (r ≡ any (refers_to id) s.problems)
        × (x : DictItem) × (find? (live_item id) s.items ≡ some x)
        × (s' ≡ rehashed digest x.dict_type_id (record s { items = after_items r }))
  unfolding delete_item_tx
  delete_item_tx-eq fail r s' h = elim (Result-cases (get_item_type_id (fail 1) id s)) [
    | inr (e, g) ↦ cc (rw g at h)
    | inl (t, g) ↦ elim (Result-cases (item_is_referenced (fail 2) id s)) [
      | inr (e, b) ↦ cc (rw (g, b) at h)
      | inl (referenced, b) ↦
          elim (Result-cases (retire_or_delete referenced (fail 3) id actor s)) [
            | inr (e, p) ↦ cc (rw (g, b, p) at h)
            | inl ((i, s₁), p) ↦
                elim (Result-cases (recompute_type_hash digest (fail 4) (fail 5) t s₁)) [
                  | inr (e, q) ↦ cc (rw (g, b, p, q) at h)
                  | inl ((v, s₂), q) ↦
                      let (same, left) = retire_or_delete-eq referenced (fail 3) i s₁ p in
                      let hashed = (recompute-eq-ok digest (fail 4) (fail 5) t s₁ s₂ v q).0 in
                      let k = rw (g, b, p, q) at h in
                      let (x, found, type_eq) = get_item_type_id-eq (fail 1) t g in
                      let s'-eq : s' ≡ s₂ = cc k in
                      let r-eq : r ≡ referenced = cc (k, same) in
                      (
                        r-eq ∙ item_is_referenced-eq (fail 2) referenced b,
                        x,
                        found,
                        rw r-eq (
                            s'-eq
                            ∙ hashed
                            ∙ rw type_eq (ap (λ z. rehashed digest x.dict_type_id z) left)),
                      )
                ]
          ]
    ]
  ]

  -- A deletion that succeeds has found a live item of that id. It retires the item exactly if a
  -- live problem refers to it and deletes it otherwise: it changes the live rows with that id and
  -- the version and the hash of the item's live type, and nothing else.
  pub delete_item_lem :
      (fail : ℕ → Bool) (r : Bool)
      → (delete_item digest fail s id actor).1 ≡ ok r
      → (r ≡ any (refers_to id) s.problems)
        × (x : DictItem) × (find? (live_item id) s.items ≡ some x)
        × ((delete_item digest fail s id actor).0
            ≡ rehashed digest x.dict_type_id (record s { items = after_items r }))
  unfolding delete_item
  delete_item_lem fail r h =
      delete_item_tx-eq fail r _
        (with_tx-eq-ok (fail 0) (fail 6) db_fault (delete_item_tx digest fail id actor) s h)

module _ (digest : String → Bytes) (fail : ℕ → Bool) (s : Store) where
  abbrev Restores : {A : Type 0} → Store × Result Err A → Type 0
  Restores x = (e : Err) → x.1 ≡ err e → x.0 ≡ s

  create_item_atomic :
      (in' : DictItemCreate) (actor : ℕ) → Restores (create_item digest fail s in' actor)
  unfolding create_item
  create_item_atomic in' actor e h = elim (Bool-cases (str_eq in'.code "")) [
    | inl c ↦ rw c refl
    | inr c ↦ elim (Bool-cases (str_eq in'.label "")) [
      | inl l ↦ rw (c, l) refl
      | inr l ↦ elim (Bool-cases (ltb_ℤ (pos 0) in'.dict_type_id)) [
        | inr n ↦ rw (c, l, n) refl
        | inl p ↦ rw (c, l, p) (with_tx_atomic (fail 0) (fail 4) db_fault _ s (rw (c, l, p) at h))
      ]
    ]
  ]

  update_item_atomic :
      (id : ℕ) (in' : DictItemUpdate) (actor : ℕ)
      → Restores (update_item digest fail s id in' actor)
  unfolding update_item
  update_item_atomic id in' actor e h = elim (Bool-cases (is_empty? in'.label)) [
    | inl l ↦ rw l refl
    | inr l ↦ rw l (with_tx_atomic (fail 0) (fail 5) db_fault _ s (rw l at h))
  ]

  delete_item_atomic : (id actor : ℕ) → Restores (delete_item digest fail s id actor)
  unfolding delete_item
  delete_item_atomic id actor e h =
      with_tx_atomic (fail 0) (fail 6) db_fault (delete_item_tx digest fail id actor) s h

  -- An answer that is an error comes with the store as it was.
  abbrev pub Settles : {A : Type 0} → Store × Result Err A → Type 0
  Settles {A} x = (x.0 ≡ s) ⊎ ((a : A) × (x.1 ≡ ok a))

  settles : {A : Type 0} (x : Store × Result Err A) → Restores x → Settles x
  settles (s', err e) h = inl (h e refl)
  settles (s', ok a) h = inr (a, refl)

  -- Creating, updating or deleting an item either succeeds or has changed nothing, whichever call
  -- fails.
  pub item_operations_atomic :
      (in' : DictItemCreate) (up : DictItemUpdate) (id actor : ℕ)
      → Settles (create_item digest fail s in' actor)
        × Settles (update_item digest fail s id up actor)
        × Settles (delete_item digest fail s id actor)
  item_operations_atomic in' up id actor = (
    settles _ (create_item_atomic in' actor),
    settles _ (update_item_atomic id up actor),
    settles _ (delete_item_atomic id actor),
  )
