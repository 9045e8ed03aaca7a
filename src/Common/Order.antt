-- ===== src/Common/Order.antt =====
-- `ORDER BY`, `LIMIT` and `OFFSET` on lists of rows.
use Prim.Native.Nat.{ℕ, zero, suc, ◌+◌, ◌≤◌}
use mathlib.Core.Path.{◌≡◌, refl, ap, ◌∙◌}
use mathlib.Core.Logic.{inl, inr}
use mathlib.Core.Bool.{Bool, true, false}
use mathlib.Core.List.{List, [], ◌∷◌, ◌++◌}
use native.Mathlib.Omega.{arith}
use native.Mathlib.Numerals.{unary_clauses}
use check.Common.Tests.{if◌then◌else◌, Bool-cases}
use check.Common.Lists.{length, keep, All}

module _ {ℓ} {A : Type ℓ} where
  -- `LIMIT n`
  abbrev pub take : ℕ → List A → List A
  take zero rows = []
  take (suc n) [] = []
  take (suc n) (row ∷ rows) = row ∷ take n rows

  -- `OFFSET n`
  abbrev pub skip : ℕ → List A → List A
  skip zero rows = rows
  skip (suc n) [] = []
  skip (suc n) (row ∷ rows) = skip n rows

  pub length-take-le : (n : ℕ) (rows : List A) → length (take n rows) ≤ n
  length-take-le zero rows = omega arith
  length-take-le (suc n) [] = omega arith
  length-take-le (suc n) (row ∷ rows) = omega (arith, length-take-le n rows)

  -- Two pages that follow each other are one longer page.
  pub take-skip :
      (n m : ℕ) (rows : List A) → take n rows ++ take m (skip n rows) ≡ take (n + m) rows
  take-skip zero m rows = let same : m ≡ 0 + m = omega arith in ap (λ k. take k rows) same
  take-skip (suc n) zero [] = simp unary_clauses refl
  take-skip (suc n) (suc m) [] = simp unary_clauses refl
  take-skip (suc n) m (row ∷ rows) =
      let same : suc (n + m) ≡ suc n + m = omega arith in
      ap (λ l. row ∷ l) (take-skip n m rows) ∙ ap (λ k. take k (row ∷ rows)) same

  pub take-all : (rows : List A) → take (length rows) rows ≡ rows
  take-all [] = refl
  take-all (row ∷ rows) = ap (λ l. row ∷ l) (take-all rows)

  module _ (before : A → A → Bool) where
    abbrev pub place : A → List A → List A
    place row [] = row ∷ []
    place row (next ∷ rows) =
        let later = place row rows in if before next row then next ∷ later else row ∷ next ∷ rows

    -- `ORDER BY`: `before a b` says that the row a comes ahead of b.
    abbrev pub order_by : List A → List A
    order_by [] = []
    order_by (row ∷ rows) = place row (order_by rows)

module _ {ℓ κ} {A : Type ℓ} (P : A → Type κ) where
  pub All-take : (n : ℕ) (rows : List A) → All P rows → All P (take n rows)
  All-take zero rows h = tt
  All-take (suc n) [] h = tt
  All-take (suc n) (row ∷ rows) h = (h.0, All-take n rows h.1)

  pub All-skip : (n : ℕ) (rows : List A) → All P rows → All P (skip n rows)
  All-skip zero rows h = h
  All-skip (suc n) [] h = tt
  All-skip (suc n) (row ∷ rows) h = All-skip n rows h.1

  pub All-keep :
      (p : A → Bool) (rows : List A)
      → All P rows
      → All (λ row. P row × (p row ≡ true)) (keep p rows)
  All-keep p [] h = tt
  All-keep p (row ∷ rows) h = elim (Bool-cases (p row)) [
    | inl e ↦ rw e ((h.0, e), All-keep p rows h.1)
    | inr e ↦ rw e (All-keep p rows h.1)
  ]

  All-place :
      (before : A → A → Bool) (row : A) (rows : List A)
      → P row
      → All P rows
      → All P (place before row rows)
  All-place before row [] h hs = (h, tt)
  All-place before row (next ∷ rows) h hs = elim (Bool-cases (before next row)) [
    | inl e ↦ rw e (hs.0, All-place before row rows h hs.1)
    | inr e ↦ rw e (h, hs)
  ]

  pub All-order_by :
      (before : A → A → Bool) (rows : List A) → All P rows → All P (order_by before rows)
  All-order_by before [] h = tt
  All-order_by before (row ∷ rows) h =
      All-place before row (order_by before rows) h.0 (All-order_by before rows h.1)

module _ {ℓ} {A : Type ℓ} where
  module _ (before : A → A → Bool) where
    -- No row stands behind one that it comes ahead of.
    abbrev pub Ordered : List A → Type ℓ
    Ordered [] = Unit
    Ordered (row ∷ rows) = All (λ later. before later row ≡ false) rows × Ordered rows

    length-place : (row : A) (rows : List A) → length (place before row rows) ≡ suc (length rows)
    length-place row [] = refl
    length-place row (next ∷ rows) = ground (arith, length-place row rows)

    keep-place :
        (p : A → Bool) (row : A) (rows : List A)
        → length (keep p (place before row rows)) ≡ length (keep p (row ∷ rows))
    keep-place p row [] = refl
    keep-place p row (next ∷ rows) = ground (arith, keep-place p row rows)

    pub length-order_by : (rows : List A) → length (order_by before rows) ≡ length rows
    length-order_by [] = refl
    length-order_by (row ∷ rows) =
        omega (arith, length-place row (order_by before rows), length-order_by rows)

    -- The order neither adds nor drops a row: as many as before pass any test.
    pub keep-order_by :
        (p : A → Bool) (rows : List A)
        → length (keep p (order_by before rows)) ≡ length (keep p rows)
    keep-order_by p [] = refl
    keep-order_by p (row ∷ rows) =
        ground (arith, keep-place p row (order_by before rows), keep-order_by p rows)

    module _ (asymmetric : (x y : A) → before x y ≡ true → before y x ≡ false)
        (passes : (x y z : A) → before z x ≡ true → before z y ≡ false → before y x ≡ true) where
      behind :
          (row next : A) (rows : List A)
          → before next row ≡ false
          → All (λ later. before later next ≡ false) rows
          → All (λ later. before later row ≡ false) rows
      behind row next [] e hs = tt
      behind row next (later ∷ rows) e hs = (
        elim (Bool-cases (before later row)) [
          | inl b ↦ absurd (cc (passes row next later b hs.0))
          | inr b ↦ b
        ],
        behind row next rows e hs.1,
      )

      place-Ordered : (row : A) (rows : List A) → Ordered rows → Ordered (place before row rows)
      place-Ordered row [] h = (tt, tt)
      place-Ordered row (next ∷ rows) h = elim (Bool-cases (before next row)) [
        | inl e ↦ rw e (
          All-place (λ later. before later next ≡ false) before row rows (asymmetric next row e)
              h.0,
          place-Ordered row rows h.1,
        )
        | inr e ↦ rw e ((e, behind row next rows e h.0), h)
      ]

      pub order_by-Ordered : (rows : List A) → Ordered (order_by before rows)
      order_by-Ordered [] = tt
      order_by-Ordered (row ∷ rows) =
          place-Ordered row (order_by before rows) (order_by-Ordered rows)

module _ {ℓ} {A : Type ℓ} where
  pub Ordered-take :
      (before : A → A → Bool) (n : ℕ) (rows : List A)
      → Ordered before rows
      → Ordered before (take n rows)
  Ordered-take before zero rows h = tt
  Ordered-take before (suc n) [] h = tt
  Ordered-take before (suc n) (row ∷ rows) h =
      (All-take (λ later. before later row ≡ false) n rows h.0, Ordered-take before n rows h.1)

  pub Ordered-skip :
      (before : A → A → Bool) (n : ℕ) (rows : List A)
      → Ordered before rows
      → Ordered before (skip n rows)
  Ordered-skip before zero rows h = h
  Ordered-skip before (suc n) [] h = tt
  Ordered-skip before (suc n) (row ∷ rows) h = Ordered-skip before n rows h.1

  pub skip-skip : (n m : ℕ) (rows : List A) → skip m (skip n rows) ≡ skip (n + m) rows
  skip-skip zero m rows = let same : m ≡ 0 + m = omega arith in ap (λ k. skip k rows) same
  skip-skip (suc n) zero [] = simp unary_clauses refl
  skip-skip (suc n) (suc m) [] = simp unary_clauses refl
  skip-skip (suc n) m (row ∷ rows) =
      let same : suc (n + m) ≡ suc n + m = omega arith in
      skip-skip n m rows ∙ ap (λ k. skip k (row ∷ rows)) same
