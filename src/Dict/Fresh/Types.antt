-- ===== src/Dict/Fresh/Types.antt =====
-- The operations on dictionary types keep the invariant: a new type has the digest of no items,
-- and an update or a deletion leaves every hash and version alone.
use check.Common.{
  ℕ, suc, ◌<◌, ◌≡◌, refl, ◌≢◌, String, Bool, true, false, List, [], ◌∷◌, arith, All, All-append,
  Bool-cases, inl, inr, str_eq, Serial-insert, Serial-update, update_where, insert_row, find?, any,
  Option-cases,
}
use check.Dict.Defs.{Bytes, Store, DictType, DictItem, actor_ptr, live_type}
use check.Dict.Repo.{
  CreateDictTypeArgs, set_type_fields, drop_type, create_dict_type, hash_items, type_code_held,
}
use check.Dict.Service.{
  DictTypeCreate, DictTypeUpdate, create_type, update_type, delete_type, is_empty?, run,
}
use check.Dict.Fresh.Rows.{hash_rows-eq-nil}
use check.Dict.Fresh.Inv.{FreshRow, AllFresh, IsWell}

unowned :
    (k : ℕ) (items : List DictItem)
    → All (λ (r : DictItem). r.dict_type_id < k) items
    → All (λ (r : DictItem). r.dict_type_id ≢ k) items
unowned k [] h = tt
unowned k (r ∷ rs) h = (omega (arith, h.0), unowned k rs h.1)

owned-suc :
    (k : ℕ) (items : List DictItem)
    → All (λ (r : DictItem). r.dict_type_id < k) items
    → All (λ (r : DictItem). r.dict_type_id < suc k) items
owned-suc k [] h = tt
owned-suc k (r ∷ rs) h = (omega (arith, h.0), owned-suc k rs h.1)

module _ (digest : String → Bytes) where
  -- A statement that keeps ids, hashes and versions, and revives no row, keeps freshness.
  update-AllFresh :
      (p : DictType → Bool) (f : DictType → DictType) (items : List DictItem)
      (types : List DictType)
      → ((t : DictType) → FreshRow digest items t → FreshRow digest items (f t))
      → AllFresh digest items types
      → AllFresh digest items (update_where p f types)
  update-AllFresh p f items [] keep h = tt
  update-AllFresh p f items (t ∷ ts) keep h = elim (Bool-cases (p t)) [
    | inl e ↦ rw e (keep t h.0, update-AllFresh p f items ts keep h.1)
    | inr e ↦ rw e (h.0, update-AllFresh p f items ts keep h.1)
  ]

  module _ (fails : Bool) (s : Store) (w : IsWell digest s) where
    types-IsWell :
        (p : DictType → Bool) (f : DictType → DictType)
        → ((t : DictType) → (f t).id ≡ t.id)
        → ((t : DictType) → FreshRow digest s.items t → FreshRow digest s.items (f t))
        → IsWell digest (record s { types = update_where p f s.types })
    types-IsWell p f same keep = record {
      types_serial = Serial-update DictType.id 0 s.next_type_id p f s.types same w.types_serial;
      items_serial = w.items_serial;
      items_owned = w.items_owned;
      fresh = update-AllFresh p f s.items s.types keep w.fresh;
    }

    -- Renaming, describing or switching a type keeps the hash of every live type equal to the digest
    -- of its live items.
    pub update_type-IsWell :
        (id : ℕ) (in' : DictTypeUpdate) (actor : ℕ)
        → IsWell digest (update_type fails s id in' actor).0
    unfolding update_type
    update_type-IsWell id in' actor = elim (Bool-cases (is_empty? in'.name)) [
      | inl e ↦ rw e w
      | inr e ↦ rw e (elim (Bool-cases fails) [
        | inl f ↦ rw f w
        | inr f ↦ rw f (elim (Option-cases (find? (live_type id) s.types)) [
          | inl n ↦ rw (n, run) w
          | inr (t, q) ↦
              rw (q, run)
                (types-IsWell (live_type id)
                  (set_type_fields (record {
                    id = id;
                    name = in'.name;
                    description = in'.description;
                    is_active = in'.is_active;
                    updated_by = actor_ptr actor;
                  }))
                  (λ t. refl) (λ t h. h))
        ])
      ])
    ]

    -- Deleting a type keeps the hash of every other live type equal to the digest of its live items.
    pub delete_type-IsWell : (id actor : ℕ) → IsWell digest (delete_type fails s id actor).0
    unfolding delete_type
    delete_type-IsWell id actor = elim (Bool-cases fails) [
      | inl f ↦ rw f w
      | inr f ↦ rw f (elim (Bool-cases (any (live_type id) s.types)) [
        | inr n ↦ rw (n, run) w
        | inl q ↦
            rw (q, run)
              (types-IsWell (live_type id) (drop_type (actor_ptr actor)) (λ t. refl) (λ t h e. cc))
      ])
    ]

    -- The type that `createDictType` inserts.
    abbrev fresh_type : CreateDictTypeArgs → DictType
    fresh_type a = record {
      id = s.next_type_id;
      code = a.code;
      name = a.name;
      scope = a.scope;
      description = a.description;
      version = 1;
      content_hash = hash_items digest [];
      is_active = true;
      updated_by = a.created_by;
      deleted = false;
    }

    insert-IsWell :
        (a : CreateDictTypeArgs)
        → IsWell digest (record s {
          types = insert_row (fresh_type a) s.types;
          next_type_id = suc s.next_type_id;
        })
    insert-IsWell a = record {
      types_serial =
          Serial-insert DictType.id 0 s.next_type_id (fresh_type a) s.types refl w.types_serial;
      items_serial = w.items_serial;
      items_owned = owned-suc s.next_type_id s.items w.items_owned;
      fresh = All-append (FreshRow digest s.items) s.types (fresh_type a ∷ []) w.fresh (
        λ _. rw (
            hash_rows-eq-nil s.next_type_id s.items (unowned s.next_type_id s.items w.items_owned)),
        tt,
      );
    }

    run_create-IsWell :
        (a : CreateDictTypeArgs) → IsWell digest (run (create_dict_type digest fails a) s).0
    unfolding create_dict_type
    run_create-IsWell a = elim (Bool-cases fails) [
      | inl f ↦ rw f w
      | inr f ↦ rw f (elim (Bool-cases (type_code_held a.code s.types)) [
        | inl t ↦ rw (t, run) w
        | inr t ↦ rw (t, run) (insert-IsWell a)
      ])
    ]

    -- Creating a type keeps the tables well-formed: the new type, too, has the digest of its live
    -- items, of which there are none.
    pub create_type-IsWell :
        (in' : DictTypeCreate) (actor : ℕ) → IsWell digest (create_type digest fails s in' actor).0
    unfolding create_type
    create_type-IsWell in' actor = elim (Bool-cases (str_eq in'.code "")) [
      | inl c ↦ rw c w
      | inr c ↦ elim (Bool-cases (str_eq in'.name "")) [
        | inl n ↦ rw (c, n) w
        | inr n ↦ elim (Option-cases in'.scope) [
          | inl q ↦ rw (c, n, q) w
          | inr (scope, q) ↦ rw (c, n, q) (run_create-IsWell _)
        ]
      ]
    ]
