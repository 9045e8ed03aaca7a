-- ===== src/Dict/Fresh/Items.antt =====
-- Each change of the item table is a change of one type's items.
use check.Common.{
  ℕ, suc, ◌<◌, ◌≡◌, refl, sym, ap, ◌∙◌, ◌≢◌, String, Bool, true, false, Option, some, List, [], ◌∷◌,
  arith, ◌==◌, Bool-cases, Option-cases, inl, inr, All, All-append, update_where, insert_row,
  Serial, Serial-insert, Serial-update, Serial-unique, Serial-le, find?, ok,
}
use check.Dict.Defs.{Bytes, DictType, DictItem, Store, live_item}
use check.Dict.Repo.{
  CreateItemArgs, UpdateItemArgs, type_row_exists, new_item, create_item_row, get_item_type_id,
  update_item_row, set_item_fields, soft_delete_item, drop_item,
}
use check.Dict.Fresh.Rows.{hash_rows-insert_ne, hash_rows-update_ne}
use check.Dict.Fresh.Inv.{IsWell}
use check.Dict.Fresh.Recompute.{Touches}

exists-lt :
    (id lo hi : ℕ) (types : List DictType)
    → Serial DictType.id lo hi types
    → type_row_exists id types ≡ true
    → id < hi
exists-lt id lo hi [] h e = cc
exists-lt id lo hi (t ∷ ts) h e = elim (Bool-cases (t.id == id)) [
  | inl y ↦ ground (arith, Serial-le DictType.id (suc t.id) hi ts h.1)
  | inr n ↦ exists-lt id (suc t.id) hi ts h.1 (rw n at e)
]

-- Rows picked by a test that passes for one row only are of that row's type.
picked_ne :
    (p : DictItem → Bool) (x : DictItem) (j : ℕ) (items : List DictItem)
    → j ≢ x.dict_type_id
    → All (λ r. p r ≡ true → r ≡ x) items
    → All (λ r. p r ≡ true → r.dict_type_id ≢ j) items
picked_ne p x j [] n h = tt
picked_ne p x j (r ∷ rs) n h =
    (λ e q. n (sym q ∙ ap (λ (z : DictItem). z.dict_type_id) (h.0 e)), picked_ne p x j rs n h.1)

owned-update :
    (p : DictItem → Bool) (f : DictItem → DictItem) (k : ℕ) (items : List DictItem)
    → ((r : DictItem) → (f r).dict_type_id ≡ r.dict_type_id)
    → All (λ (r : DictItem). r.dict_type_id < k) items
    → All (λ (r : DictItem). r.dict_type_id < k) (update_where p f items)
owned-update p f k [] same h = tt
owned-update p f k (r ∷ rs) same h = (ground (arith, h.0, same r), owned-update p f k rs same h.1)

module _ (digest : String → Bytes) (s : Store) (w : IsWell digest s) where
  update-Touches :
      (id : ℕ) (x : DictItem) (f : DictItem → DictItem)
      → find? (live_item id) s.items ≡ some x
      → ((r : DictItem) → (f r).dict_type_id ≡ r.dict_type_id)
      → ((r : DictItem) → (f r).id ≡ r.id)
      → Touches x.dict_type_id s (record s { items = update_where (live_item id) f s.items })
  update-Touches id x f e same_type same_id = record {
    same_types = refl;
    same_next = refl;
    items_serial =
        Serial-update DictItem.id 0 s.next_item_id (live_item id) f s.items same_id w.items_serial;
    items_owned = owned-update (live_item id) f s.next_type_id s.items same_type w.items_owned;
    others = λ j n. hash_rows-update_ne j (live_item id) f s.items same_type (
        picked_ne (live_item id) x j s.items n (
          Serial-unique DictItem.id id 0 s.next_item_id (live_item id) x s.items
            (λ r h. ground arith) w.items_serial e));
  }

  insert-Touches :
      (a : CreateItemArgs)
      → type_row_exists a.dict_type_id s.types ≡ true
      → Touches a.dict_type_id s (record s {
        items = insert_row (new_item a s.next_item_id) s.items;
        next_item_id = suc s.next_item_id;
      })
  insert-Touches a e = record {
    same_types = refl;
    same_next = refl;
    items_serial =
        Serial-insert DictItem.id 0 s.next_item_id (new_item a s.next_item_id) s.items refl
          w.items_serial;
    items_owned =
        All-append (λ (r : DictItem). r.dict_type_id < s.next_type_id) s.items
          (new_item a s.next_item_id ∷ []) w.items_owned
          (exists-lt a.dict_type_id 0 s.next_type_id s.types w.types_serial e, tt);
    others = λ j n. hash_rows-insert_ne j (new_item a s.next_item_id) s.items (λ q. n (sym q));
  }

  create_item_row-eq-ok :
      (fails : Bool) (a : CreateItemArgs) (s₁ : Store) (item : DictItem)
      → create_item_row fails a s ≡ ok (item, s₁)
      → (type_row_exists a.dict_type_id s.types ≡ true)
        × (s₁ ≡ record s {
          items = insert_row (new_item a s.next_item_id) s.items;
          next_item_id = suc s.next_item_id;
        })
  unfolding create_item_row
  create_item_row-eq-ok fails a s₁ item h = ground arith

  pub create_item_row-Touches :
      (fails : Bool) (a : CreateItemArgs) (s₁ : Store) (item : DictItem)
      → create_item_row fails a s ≡ ok (item, s₁)
      → Touches a.dict_type_id s s₁
  create_item_row-Touches fails a s₁ item h =
      let (e, q) = create_item_row-eq-ok fails a s₁ item h in rw q (insert-Touches a e)

  get_item_type_id-eq-ok :
      (fails : Bool) (id type_id : ℕ)
      → get_item_type_id fails id s ≡ ok type_id
      → (x : DictItem) × (find? (live_item id) s.items ≡ some x) × (x.dict_type_id ≡ type_id)
  unfolding get_item_type_id
  get_item_type_id-eq-ok true id type_id h = cc
  get_item_type_id-eq-ok false id type_id h = elim (Option-cases (find? (live_item id) s.items)) [
    | inl e ↦ cc (rw e at h)
    | inr (x, e) ↦ (x, e, cc (rw e at h))
  ]

  update_item_row-eq-ok :
      (fails : Bool) (a : UpdateItemArgs) (s₁ : Store) (item : DictItem)
      → update_item_row fails a s ≡ ok (item, s₁)
      → s₁ ≡ record s { items = update_where (live_item a.id) (set_item_fields a) s.items }
  unfolding update_item_row
  update_item_row-eq-ok fails a s₁ item h = ground arith

  soft_delete_item-eq-ok :
      (fails : Bool) (id : ℕ) (by : Option ℕ) (s₁ : Store) (u : Unit {0})
      → soft_delete_item fails id by s ≡ ok (u, s₁)
      → s₁ ≡ record s { items = update_where (live_item id) (drop_item by) s.items }
  unfolding soft_delete_item
  soft_delete_item-eq-ok fails id by s₁ u h = ground arith

  pub update_item_row-Touches :
      (ft fails : Bool) (a : UpdateItemArgs) (type_id : ℕ) (s₁ : Store) (item : DictItem)
      → get_item_type_id ft a.id s ≡ ok type_id
      → update_item_row fails a s ≡ ok (item, s₁)
      → Touches type_id s s₁
  update_item_row-Touches ft fails a type_id s₁ item g h =
      let (x, e, q) = get_item_type_id-eq-ok ft a.id type_id g in
      rw (update_item_row-eq-ok fails a s₁ item h, ← q)
        (update-Touches a.id x (set_item_fields a) e (λ r. refl) (λ r. refl))

  pub soft_delete_item-Touches :
      (ft fails : Bool) (id : ℕ) (by : Option ℕ) (type_id : ℕ) (s₁ : Store) (u : Unit {0})
      → get_item_type_id ft id s ≡ ok type_id
      → soft_delete_item fails id by s ≡ ok (u, s₁)
      → Touches type_id s s₁
  soft_delete_item-Touches ft fails id by type_id s₁ u g h =
      let (x, e, q) = get_item_type_id-eq-ok ft id type_id g in
      rw (soft_delete_item-eq-ok fails id by s₁ u h, ← q)
        (update-Touches id x (drop_item by) e (λ r. refl) (λ r. refl))
