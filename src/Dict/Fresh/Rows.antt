-- ===== src/Dict/Fresh/Rows.antt =====
-- Which item rows a change of the item table can add to, or alter in, the rows that a type's
-- digest covers.
use check.Common.{
  ℕ, ◌≡◌, refl, ◌≢◌, Bool, true, List, [], ◌∷◌, arith, Bool-cases, inl, inr, All, update_where,
  insert_row,
}
use check.Dict.Defs.{DictItem, hash_rows}

-- A new row of another type is not covered.
pub hash_rows-insert_ne :
    (type_id : ℕ) (x : DictItem) (items : List DictItem)
    → x.dict_type_id ≢ type_id
    → hash_rows type_id (insert_row x items) ≡ hash_rows type_id items
unfolding hash_rows
hash_rows-insert_ne type_id x [] n = ground arith
hash_rows-insert_ne type_id x (r ∷ rs) n = ground (arith, hash_rows-insert_ne type_id x rs n)

-- Rows of other types that change and keep their type leave the covered rows as they are.
pub hash_rows-update_ne :
    (type_id : ℕ) (p : DictItem → Bool) (f : DictItem → DictItem) (items : List DictItem)
    → ((r : DictItem) → (f r).dict_type_id ≡ r.dict_type_id)
    → All (λ r. p r ≡ true → r.dict_type_id ≢ type_id) items
    → hash_rows type_id (update_where p f items) ≡ hash_rows type_id items
unfolding hash_rows
hash_rows-update_ne type_id p f [] same h = refl
hash_rows-update_ne type_id p f (r ∷ rs) same h = elim (Bool-cases (p r)) [
  | inl e ↦ rw e (ground (arith, h.0 e, same r, hash_rows-update_ne type_id p f rs same h.1))
  | inr e ↦ rw e (ground (arith, hash_rows-update_ne type_id p f rs same h.1))
]

-- No row is covered by a type that is younger than the types of all rows.
pub hash_rows-eq-nil :
    (type_id : ℕ) (items : List DictItem)
    → All (λ r. r.dict_type_id ≢ type_id) items
    → hash_rows type_id items ≡ []
unfolding hash_rows
hash_rows-eq-nil type_id [] h = refl
hash_rows-eq-nil type_id (r ∷ rs) h = ground (arith, h.0, hash_rows-eq-nil type_id rs h.1)
