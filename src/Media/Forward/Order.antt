-- ===== src/Media/Forward/Order.antt =====
-- The order in which the rows of `media_assets` may change.
use check.Common.{
  ◌≡◌, refl, Bool, true, false, List, [], ◌∷◌, ltb_ℤ, pos, arith, Bool-cases, inl, inr,
  update_where, insert_row,
}
use check.Media.Defs.{CaptureState, capture_rank, Asset}

-- The same row, not further back.
abbrev pub Advanced : Asset → Asset → Type 0
Advanced a b =
    (a.id ≡ b.id)
    × (a.cos_key ≡ b.cos_key)
    × (ltb_ℤ (capture_rank b.capture_state) (capture_rank a.capture_state) ≡ false)

-- Every row of the first list stands advanced in the second, which may have more rows.
abbrev pub Advances : List Asset → List Asset → Type 0
Advances [] bs = Unit
Advances (a ∷ as') [] = true ≡ false
Advances (a ∷ as') (b ∷ bs) = Advanced a b × Advances as' bs

pub Advanced-refl : (a : Asset) → Advanced a a
Advanced-refl a = (refl, refl, ground arith)

pub Advances-refl : (as' : List Asset) → Advances as' as'
Advances-refl [] = tt
Advances-refl (a ∷ as') = (Advanced-refl a, Advances-refl as')

pub Advances-trans : (xs ys zs : List Asset) → Advances xs ys → Advances ys zs → Advances xs zs
Advances-trans [] ys zs h k = tt
Advances-trans (x ∷ xs) [] zs h k = absurd (cc)
Advances-trans (x ∷ xs) (y ∷ ys) [] h k = absurd (cc)
Advances-trans (x ∷ xs) (y ∷ ys) (z ∷ zs) h k = (ground arith, Advances-trans xs ys zs h.1 k.1)

pub Advances-insert : (x : Asset) (xs : List Asset) → Advances xs (insert_row x xs)
Advances-insert x [] = tt
Advances-insert x (y ∷ ys) = (Advanced-refl y, Advances-insert x ys)

pub Advances-update :
    (p : Asset → Bool) (f : Asset → Asset) (xs : List Asset)
    → ((a : Asset) → Advanced a (f a))
    → Advances xs (update_where p f xs)
Advances-update p f [] h = tt
Advances-update p f (x ∷ xs) h = elim (Bool-cases (p x)) [
  | inl e ↦ rw e (h x, Advances-update p f xs h)
  | inr e ↦ rw e (Advanced-refl x, Advances-update p f xs h)
]

pub confirmed-last : (s : CaptureState) → ltb_ℤ (pos 5) (capture_rank s) ≡ false
confirmed-last s = ground arith
