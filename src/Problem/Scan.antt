-- ===== src/Problem/Scan.antt =====
-- Reading the rows of a query one after another (`rows.Next` of backend/internal/problem/service.go).
use check.Common.{
  ℕ, suc, ◌≡◌, refl, ap, ◌∙◌, Bool, false, List, [], ◌∷◌, ◌++◌, All, length, Ordered, Result-cases,
  inl, inr, Result, ok,
}
use check.Problem.Defs.{ProblemErr}
use check.Problem.Queries.{scan_all}

module _ {A B : Type 0} (scan : A → Result ProblemErr B) where
  pub scan_all-cons :
      (row : A) (rows : List A) {page : List B}
      → scan_all scan (row ∷ rows) ≡ ok page
      → (b : B) × (bs : List B) × (scan row ≡ ok b) × (scan_all scan rows ≡ ok bs) × (page ≡ b ∷ bs)
  scan_all-cons row rows h = elim (Result-cases (scan row)) [
    | inr (e, s) ↦ absurd (cc (rw s at h))
    | inl (b, s) ↦ elim (Result-cases (scan_all scan rows)) [
      | inr (e, t) ↦ absurd (cc (rw (s, t) at h))
      | inl (bs, t) ↦ (b, bs, s, t, cc (rw (s, t) at h))
    ]
  ]

  pub scan_all-append :
      (front back : List A) {p q : List B}
      → scan_all scan front ≡ ok p
      → scan_all scan back ≡ ok q
      → scan_all scan (front ++ back) ≡ ok (p ++ q)
  scan_all-append [] back {p} h k = let none_read : p ≡ [] = cc in rw (none_read, k) refl
  scan_all-append (row ∷ front) back h k =
      let (b, bs, s, t, e) = scan_all-cons row front h in
      rw (s, scan_all-append front back t k, e) refl

  pub length-scan_all :
      (rows : List A) {page : List B} → scan_all scan rows ≡ ok page → length page ≡ length rows
  length-scan_all [] {page} h = let none_read : page ≡ [] = cc in rw none_read refl
  length-scan_all (row ∷ rows) h =
      let (b, bs, s, t, e) = scan_all-cons row rows h in rw e (ap suc (length-scan_all rows t))

  pub scan_all-All :
      (P : A → Type 0) (Q : B → Type 0) (rows : List A) {page : List B}
      → ((row : A) (b : B) → P row → scan row ≡ ok b → Q b)
      → All P rows
      → scan_all scan rows ≡ ok page
      → All Q page
  scan_all-All P Q [] {page} f hs h = let none_read : page ≡ [] = cc in rw none_read tt
  scan_all-All P Q (row ∷ rows) f hs h =
      let (b, bs, s, t, e) = scan_all-cons row rows h in
      rw e (f row b hs.0 s, scan_all-All P Q rows f hs.1 t)

  pub scan_all-Ordered :
      (before : A → A → Bool) (ahead : B → B → Bool) (rows : List A) {page : List B}
      → ((x y : A) (b c : B) → scan x ≡ ok b → scan y ≡ ok c → ahead b c ≡ before x y)
      → Ordered before rows
      → scan_all scan rows ≡ ok page
      → Ordered ahead page
  scan_all-Ordered before ahead [] {page} f hs h = let none_read : page ≡ [] = cc in rw none_read tt
  scan_all-Ordered before ahead (row ∷ rows) f hs h =
      let (b, bs, s, t, e) = scan_all-cons row rows h in
      rw e (
        scan_all-All (λ later. before later row ≡ false) (λ later. ahead later b ≡ false) rows
            (λ later c n k. f later row c b k s ∙ n) hs.0 t,
        scan_all-Ordered before ahead rows f hs.1 t,
      )

abbrev pub ids : {A : Type 0} → (A → ℕ) → List A → List ℕ
ids id_of [] = []
ids id_of (a ∷ rows) = id_of a ∷ ids id_of rows

pub scan_all-ids :
    {A B : Type 0} (scan : A → Result ProblemErr B) (id_of : A → ℕ) (id_of' : B → ℕ) (rows : List A)
    {page : List B}
    → ((row : A) (b : B) → scan row ≡ ok b → id_of' b ≡ id_of row)
    → scan_all scan rows ≡ ok page
    → ids id_of' page ≡ ids id_of rows
scan_all-ids scan id_of id_of' [] {page} f h = let none_read : page ≡ [] = cc in rw none_read refl
scan_all-ids scan id_of id_of' (row ∷ rows) f h =
    let (b, bs, s, t, e) = scan_all-cons scan row rows h in
    rw (e, f row b s, scan_all-ids scan id_of id_of' rows f t) refl
