-- ===== src/Common/Reorder.antt =====
-- The order of a query does not depend on the order in which the table holds its rows.
use Prim.Native.Nat.{ℕ, suc, ◌≤◌}
use mathlib.Core.Path.{◌≡◌, refl, sym, ap, ◌∙◌}
use mathlib.Core.Logic.{inl, inr, ◌⊎◌}
use mathlib.Core.Bool.{Bool, true, false}
use mathlib.Core.List.{List, [], ◌∷◌, Permᴰ, Memᴰ}
use mathlib.Core.List.Memᴰ
use mathlib.Core.List.Permᴰ
use native.Mathlib.Omega.{arith}
use check.Common.Tests.{Bool-cases}
use check.Common.Lists.{keep, length}
use check.Common.Order.{place, order_by}
use check.Common.Keys.{Serial}

mem-back : {A : Type 0} {xs ys : List A} {x : A} → Permᴰ xs ys → Memᴰ x ys → Memᴰ x xs
mem-back Permᴰ.nil m = m
mem-back (Permᴰ.cons e d) m = elim (Memᴰ.cases_cons m) [
  | inl h ↦ Memᴰ.head (h ∙ sym e)
  | inr later ↦ Memᴰ.tail (mem-back d later)
]
mem-back (Permᴰ.swap e e') m = elim (Memᴰ.cases_cons m) [
  | inl h ↦ Memᴰ.tail (Memᴰ.head (h ∙ sym e'))
  | inr m' ↦ elim (Memᴰ.cases_cons m') [
    | inl h ↦ Memᴰ.head (h ∙ sym e)
    | inr later ↦ Memᴰ.tail (Memᴰ.tail later)
  ]
]
mem-back (Permᴰ.trans d d') m = mem-back d (mem-back d' m)

module _ {A : Type 0} (before : A → A → Bool)
    (asymmetric : (x y : A) → before x y ≡ true → before y x ≡ false)
    (passes : (x y z : A) → before z x ≡ true → before z y ≡ false → before y x ≡ true) where
  -- Rows of which one comes ahead of the other find the same places, whichever is placed first.
  place_comm :
      (a b : A) (rows : List A)
      → before a b ≡ true
      → place before a (place before b rows) ≡ place before b (place before a rows)
  place_comm a b [] h = ground (arith, asymmetric a b h)
  place_comm a b (next ∷ rows) h =
      ground (arith, place_comm a b rows h, asymmetric a b h, passes a b next)

  -- One row comes ahead of the other, or they are the same.
  abbrev pub Apart : A → A → Type 0
  Apart a b = (before a b ≡ true) ⊎ (before b a ≡ true) ⊎ (a ≡ b)

  place-swap :
      (a b : A) (rows : List A)
      → Apart a b
      → place before a (place before b rows) ≡ place before b (place before a rows)
  place-swap a b rows (inl h) = place_comm a b rows h
  place-swap a b rows (inr (inl h)) = sym (place_comm b a rows h)
  place-swap a b rows (inr (inr e)) = rw e refl

  -- `ORDER BY` of rows that are all apart is the same however the table holds them.
  pub order_by-perm :
      {xs ys : List A}
      → Permᴰ xs ys
      → ((a b : A) → Memᴰ a xs → Memᴰ b xs → Apart a b)
      → order_by before xs ≡ order_by before ys
  order_by-perm Permᴰ.nil apart = refl
  order_by-perm (Permᴰ.cons {a} {b} {l₁} {l₂} e d) apart =
      let rest = order_by-perm d (λ x y m n. apart x y (Memᴰ.tail m) (Memᴰ.tail n)) in
      rw (e, rest) refl
  order_by-perm (Permᴰ.swap {a} {b} {a'} {b'} {l} e e') apart =
      place-swap a b (order_by before l) (apart a b (Memᴰ.head refl) (Memᴰ.tail (Memᴰ.head refl)))
      ∙ rw (e, e') refl
  order_by-perm (Permᴰ.trans d d') apart =
      order_by-perm d apart ∙ order_by-perm d' (λ x y m n. apart x y (mem-back d m) (mem-back d n))

module _ {A : Type 0} (p : A → Bool) where
  pub keep-perm : {xs ys : List A} → Permᴰ xs ys → Permᴰ (keep p xs) (keep p ys)
  keep-perm Permᴰ.nil = Permᴰ.nil
  keep-perm (Permᴰ.cons {a} {b} e d) = elim (Bool-cases (p b)) [
    | inl t ↦ rw (e, t) (Permᴰ.cons refl (keep-perm d))
    | inr t ↦ rw (e, t) (keep-perm d)
  ]
  keep-perm (Permᴰ.swap {a} {b} {a'} {b'} {l} e e') = elim (Bool-cases (p a')) [
    | inl t ↦ elim (Bool-cases (p b')) [
      | inl u ↦ rw (e, e', t, u) (Permᴰ.swap refl refl)
      | inr u ↦ rw (e, e', t, u) (Permᴰ.refl (a' ∷ keep p l))
    ]
    | inr t ↦ elim (Bool-cases (p b')) [
      | inl u ↦ rw (e, e', t, u) (Permᴰ.refl (b' ∷ keep p l))
      | inr u ↦ rw (e, e', t, u) (Permᴰ.refl (keep p l))
    ]
  ]
  keep-perm (Permᴰ.trans d d') = Permᴰ.trans (keep-perm d) (keep-perm d')

  pub mem-keep : (x : A) (xs : List A) → Memᴰ x (keep p xs) → Memᴰ x xs
  mem-keep x [] m = m
  mem-keep x (y ∷ ys) m = elim (Bool-cases (p y)) [
    | inl t ↦ elim (Memᴰ.cases_cons (rw t at m)) [
      | inl e ↦ Memᴰ.head e
      | inr later ↦ Memᴰ.tail (mem-keep x ys later)
    ]
    | inr t ↦ Memᴰ.tail (mem-keep x ys (rw t at m))
  ]

module _ {A : Type 0} where
  pub length-perm : {xs ys : List A} → Permᴰ xs ys → length xs ≡ length ys
  length-perm Permᴰ.nil = refl
  length-perm (Permᴰ.cons e d) = ap suc (length-perm d)
  length-perm (Permᴰ.swap e e') = refl
  length-perm (Permᴰ.trans d d') = length-perm d ∙ length-perm d'

-- Rows of a serial key that have the same key are the same row.
module _ {A : Type 0} (key : A → ℕ) where
  mem-above : (lo hi : ℕ) (x : A) (xs : List A) → Serial key lo hi xs → Memᴰ x xs → lo ≤ key x
  mem-above lo hi x [] h m = absurd (Memᴰ.not-nil m)
  mem-above lo hi x (y ∷ ys) h m = elim (Memᴰ.cases_cons m) [
    | inl e ↦ rw e (h.0)
    | inr later ↦ omega (arith, h.0, mem-above (suc (key y)) hi x ys h.1 later)
  ]

  pub Serial-single :
      (lo hi : ℕ) (x y : A) (xs : List A)
      → Serial key lo hi xs
      → Memᴰ x xs
      → Memᴰ y xs
      → key x ≡ key y
      → x ≡ y
  Serial-single lo hi x y [] h m n k = absurd (Memᴰ.not-nil m)
  Serial-single lo hi x y (z ∷ zs) h m n k = elim (Memᴰ.cases_cons m) [
    | inl e ↦ elim (Memᴰ.cases_cons n) [
      | inl e' ↦ e ∙ sym e'
      | inr n' ↦ absurd (omega (arith, ap key e, mem-above (suc (key z)) hi y zs h.1 n'))
    ]
    | inr m' ↦ elim (Memᴰ.cases_cons n) [
      | inl e' ↦ absurd (omega (arith, ap key e', mem-above (suc (key z)) hi x zs h.1 m'))
      | inr n' ↦ Serial-single (suc (key z)) hi x y zs h.1 m' n' k
    ]
  ]
