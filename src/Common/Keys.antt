-- ===== src/Common/Keys.antt =====
-- Tables whose rows are in the order of a serial key: every key is new, and below the next one.
use Prim.Native.Nat.{ℕ, suc, ◌≤◌, ◌<◌}
use mathlib.Core.Path.{◌≡◌}
use mathlib.Core.Logic.{inl, inr}
use mathlib.Core.Bool.{Bool, true}
use mathlib.Core.Option.{some}
use mathlib.Core.List.{List, [], ◌∷◌}
use native.Mathlib.Omega.{arith}
use check.Common.Tests.{Bool-cases}
use check.Common.Lists.{All, find?, found-All, found-passes}
use check.Common.Tables.{update_where, insert_row}

module _ {A : Type 0} (key : A → ℕ) where
  -- The keys rise from `lo` and stay below `hi`, the next key of the sequence.
  abbrev pub Serial : ℕ → ℕ → List A → Type 0
  Serial lo hi [] = lo ≤ hi
  Serial lo hi (x ∷ xs) = (lo ≤ key x) × Serial (suc (key x)) hi xs

  pub Serial-insert :
      (lo hi : ℕ) (x : A) (xs : List A)
      → key x ≡ hi
      → Serial lo hi xs
      → Serial lo (suc hi) (insert_row x xs)
  Serial-insert lo hi x [] e h = omega arith
  Serial-insert lo hi x (y ∷ ys) e h = (h.0, Serial-insert (suc (key y)) hi x ys e h.1)

  pub Serial-weaken : (lo lo' hi : ℕ) (xs : List A) → lo ≤ lo' → Serial lo' hi xs → Serial lo hi xs
  Serial-weaken lo lo' hi [] l h = omega arith
  Serial-weaken lo lo' hi (x ∷ xs) l h = (omega arith, h.1)

  pub Serial-le : (lo hi : ℕ) (xs : List A) → Serial lo hi xs → lo ≤ hi
  Serial-le lo hi [] h = h
  Serial-le lo hi (x ∷ xs) h = omega (arith, Serial-le (suc (key x)) hi xs h.1)

  pub Serial-update :
      (lo hi : ℕ) (p : A → Bool) (f : A → A) (xs : List A)
      → ((x : A) → key (f x) ≡ key x)
      → Serial lo hi xs
      → Serial lo hi (update_where p f xs)
  Serial-update lo hi p f [] same h = h
  Serial-update lo hi p f (x ∷ xs) same h = elim (Bool-cases (p x)) [
    | inl e ↦ rw (e, same) (h.0, Serial-update (suc (key x)) hi p f xs same h.1)
    | inr e ↦ rw e (h.0, Serial-update (suc (key x)) hi p f xs same h.1)
  ]

  pub Serial-bounds : (lo hi : ℕ) (xs : List A) → Serial lo hi xs → All (λ x. lo ≤ key x) xs
  Serial-bounds lo hi [] h = tt
  Serial-bounds lo hi (x ∷ xs) h =
      (h.0, Serial-bounds lo hi xs (Serial-weaken lo (suc (key x)) hi xs (omega arith) h.1))

  pub Serial-below : (lo hi : ℕ) (xs : List A) → Serial lo hi xs → All (λ x. key x < hi) xs
  Serial-below lo hi [] h = tt
  Serial-below lo hi (x ∷ xs) h =
      (omega (arith, Serial-le (suc (key x)) hi xs h.1), Serial-below (suc (key x)) hi xs h.1)

  -- A test that fixes the key passes for no second row.
  none_above :
      (i lo hi : ℕ) (p : A → Bool) (a : A) (xs : List A)
      → ((x : A) → p x ≡ true → key x ≡ i)
      → i < lo
      → Serial lo hi xs
      → All (λ x. p x ≡ true → x ≡ a) xs
  none_above i lo hi p a [] fix l h = tt
  none_above i lo hi p a (x ∷ xs) fix l h = (
    λ e. absurd (omega (arith, fix x e)),
    none_above i (suc (key x)) hi p a xs fix (omega arith) h.1,
  )

  keys_above :
      (i lo hi : ℕ) (a : A) (xs : List A)
      → i < lo
      → Serial lo hi xs
      → All (λ x. key x ≡ i → x ≡ a) xs
  keys_above i lo hi a [] l h = tt
  keys_above i lo hi a (x ∷ xs) l h =
      (λ k. absurd (omega arith), keys_above i (suc (key x)) hi a xs (omega arith) h.1)

  pub Serial-unique :
      (i lo hi : ℕ) (p : A → Bool) (a : A) (xs : List A)
      → ((x : A) → p x ≡ true → key x ≡ i)
      → Serial lo hi xs
      → find? p xs ≡ some a
      → All (λ x. p x ≡ true → x ≡ a) xs
  Serial-unique i lo hi p a [] fix h e = tt
  Serial-unique i lo hi p a (x ∷ xs) fix h e = elim (Bool-cases (p x)) [
    | inl t ↦
        (λ _. cc (rw t at e), none_above i (suc (key x)) hi p a xs fix (omega (arith, fix x t)) h.1)
    | inr f ↦ (λ t. absurd (cc), Serial-unique i (suc (key x)) hi p a xs fix h.1 (rw f at e))
  ]

  -- A row that is found by a test that fixes its key is the only one with this key.
  pub Serial-one :
      (i lo hi : ℕ) (p : A → Bool) (a : A) (xs : List A)
      → ((x : A) → p x ≡ true → key x ≡ i)
      → Serial lo hi xs
      → find? p xs ≡ some a
      → All (λ x. key x ≡ i → x ≡ a) xs
  Serial-one i lo hi p a [] fix h e = tt
  Serial-one i lo hi p a (x ∷ xs) fix h e = elim (Bool-cases (p x)) [
    | inl t ↦ (λ _. cc (rw t at e), keys_above i (suc (key x)) hi a xs (omega (arith, fix x t)) h.1)
    | inr f ↦
        let later : find? p xs ≡ some a = rw f at e in
        let high : suc (key x) ≤ key a =
          found-All p (λ y. suc (key x) ≤ key y) a xs (Serial-bounds (suc (key x)) hi xs h.1)
            later in
        (
          λ k. absurd (omega (arith, fix a (found-passes p a xs later))),
          Serial-one i (suc (key x)) hi p a xs fix h.1 later,
        )
  ]
