-- ===== src/Problem/Selected.antt =====
-- The order of the problem list: by the instant of capture and the id, whatever order the table holds its
-- rows in.
use check.Common.{
  ℕ, ◌≡◌, true, false, Ordered, order_by-Ordered, order_by-perm, keep, keep-perm, mem-keep, Serial,
  Serial-single, arith, Bool-cases, inl, inr, ◌⊎◌,
}
use mathlib.Core.List.{Permᴰ}
use check.Problem.Defs.{Row, Db, ListFilter}
use check.Problem.Queries.{matches, newer, capture_of, selected}

newer-asym : (x y : ℕ × ℕ) → newer x y ≡ true → newer y x ≡ false
newer-asym (a, i) (b, j) h = ground arith

newer-passes : (x y z : ℕ × ℕ) → newer z x ≡ true → newer z y ≡ false → newer y x ≡ true
newer-passes (a, i) (b, j) (c, k) h n = ground arith

newer-cases : (x y : ℕ × ℕ) → (newer x y ≡ true) ⊎ (newer y x ≡ true) ⊎ (x.1 ≡ y.1)
newer-cases (a, i) (b, j) = elim (Bool-cases (newer (a, i) (b, j))) [
  | inl e ↦ inl e
  | inr e ↦ elim (Bool-cases (newer (b, j) (a, i))) [
    | inl e' ↦ inr (inl e')
    | inr e' ↦ inr (inr (ground arith))
  ]
]

-- The rows of a filter in their order, wherever the table holds them: no two of them are captured at one
-- instant under one id.
pub selected-perm :
    (f : ListFilter) (db db' : Db)
    → Serial Row.id 0 db.problems.next db.problems.rows
    → Permᴰ db.problems.rows db'.problems.rows
    → selected f db ≡ selected f db'
selected-perm f db db' serial reordered =
    order_by-perm (λ a b. newer (capture_of a) (capture_of b))
      (λ x y h. newer-asym (capture_of x) (capture_of y) h)
      (λ x y z h n. newer-passes (capture_of x) (capture_of y) (capture_of z) h n)
      (keep-perm (matches f) reordered)
      (λ a b m n. elim (newer-cases (capture_of a) (capture_of b)) [
        | inl e ↦ inl e
        | inr (inl e) ↦ inr (inl e)
        | inr (inr e) ↦ inr (
            inr (
              Serial-single Row.id 0 db.problems.next a b db.problems.rows serial
                (mem-keep (matches f) a db.problems.rows m)
                (mem-keep (matches f) b db.problems.rows n) e))
      ])

pub selected-Ordered :
    (f : ListFilter) (db : Db)
    → Ordered (λ a b. newer (capture_of a) (capture_of b)) (selected f db)
selected-Ordered f db =
    order_by-Ordered (λ a b. newer (capture_of a) (capture_of b))
      (λ x y h. newer-asym (capture_of x) (capture_of y) h)
      (λ x y z h n. newer-passes (capture_of x) (capture_of y) (capture_of z) h n)
      (keep (matches f) db.problems.rows)
