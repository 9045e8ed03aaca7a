-- ===== src/Export/Pages.antt =====
-- The paging loop of the reports ends and writes every row (backend/internal/export/build_problem.go,
-- build_inspection.go).
use check.Common.{
  ℕ, zero, suc, ◌+◌, ◌≤◌, ◌<◌, ◌≡◌, ◌≢◌, refl, ap, sym, ◌∙◌, Bool, false, ◌||◌, List, [], ◌∷◌, ◌++◌,
  any, ltb, length, length-take-le, take, skip, skip-skip, arith, Bool-cases, inl, inr, ok, err,
}
use check.Export.Defs.{out_of_fuel, Jobs}
use check.Export.Builders.{write_pages, page_size, build_list}

take-short : {R : Type 0} (n : ℕ) (rows : List R) → length (take n rows) < n → take n rows ≡ rows
take-short zero rows h = absurd (omega arith)
take-short (suc n) [] h = refl
take-short (suc n) (row ∷ rows) h = ap (λ l. row ∷ l) (take-short n rows (omega arith))

length-full :
    {R : Type 0} (n : ℕ) (rows : List R)
    → n ≤ length (take n rows)
    → length rows ≡ n + length (skip n rows)
length-full zero rows h = omega arith
length-full (suc n) [] h = absurd (omega arith)
length-full (suc n) (row ∷ rows) h = omega (arith, length-full n rows (omega arith))

take-then-skip : {R : Type 0} (n : ℕ) (rows : List R) → take n rows ++ skip n rows ≡ rows
take-then-skip zero rows = refl
take-then-skip (suc n) [] = refl
take-then-skip (suc n) (row ∷ rows) = ap (λ l. row ∷ l) (take-then-skip n rows)

append_assoc : {R : Type 0} (a b c : List R) → (a ++ b) ++ c ≡ a ++ (b ++ c)
append_assoc [] b c = refl
append_assoc (x ∷ a) b c = ap (λ l. x ∷ l) (append_assoc a b c)

any-take :
    {R : Type 0} (p : R → Bool) (n : ℕ) (rows : List R)
    → any p rows ≡ false
    → any p (take n rows) ≡ false
any-take p zero rows h = refl
any-take p (suc n) [] h = refl
any-take p (suc n) (row ∷ rows) h = ground (arith, any-take p n rows)

any-skip :
    {R : Type 0} (p : R → Bool) (n : ℕ) (rows : List R)
    → any p rows ≡ false
    → any p (skip n rows) ≡ false
any-skip p zero rows h = h
any-skip p (suc n) [] h = refl
any-skip p (suc n) (row ∷ rows) h = any-skip p n rows (ground arith)

module _ {R : Type 0} (refuses : R → Bool) (id total : ℕ) (size : ℕ) (some_size : 0 < size) where
  -- With more pages allowed than rows are left, and no failure, the loop ends and has written them all.
  write_pages-all :
      (fuel : ℕ) (rows : List R) (offset processed : ℕ) (sheet : List R) (s : Jobs)
      → length (skip offset rows) < fuel
      → any refuses rows ≡ false
      → (write_pages refuses (λ _ _. false) id total size fuel rows offset processed sheet s).1
        ≡ ok (processed + length (skip offset rows), sheet ++ skip offset rows)
  unfolding write_pages
  write_pages-all zero rows offset processed sheet s h n = absurd (omega arith)
  write_pages-all (suc fuel) rows offset processed sheet s h n =
      let left = skip offset rows in
      let page = take size left in
      let fine : any refuses page ≡ false =
        any-take refuses size left (any-skip refuses offset rows n) in
      elim (Bool-cases (ltb (length page) size)) [
        | inl short ↦
            let whole : page ≡ left = take-short size left (ground arith) in
            rw (fine, short) (ap (λ l. ok (processed + length l, sheet ++ l)) whole)
        | inr full ↦
            let enough : size ≤ length page = ground arith in
            let longer : length left ≡ size + length (skip size left) =
              length-full size left enough in
            let next : skip size left ≡ skip (offset + size) rows = skip-skip offset size rows in
            let fewer : length (skip (offset + size) rows) < fuel =
              omega (arith, longer, ap length next) in
            let count : processed + length page + length (skip (offset + size) rows)
                ≡ processed + length left =
              omega (arith, enough, longer, ap length next, length-take-le size left) in
            let lines : (sheet ++ page) ++ skip (offset + size) rows ≡ sheet ++ left =
              append_assoc sheet page (skip (offset + size) rows)
              ∙ ap (λ l. sheet ++ l) (ap (λ l. page ++ l) (sym next) ∙ take-then-skip size left) in
            rw (fine, full)
              (write_pages-all fuel rows (offset + size) (processed + length page) (sheet ++ page) _
                  fewer n
                ∙ rw (count, lines) refl)
      ]

  -- With more pages allowed than rows are left, the loop ends before its fuel does, whatever fails.
  write_pages-ends :
      (fail : ℕ → ℕ → Bool) (fuel : ℕ) (rows : List R) (offset processed : ℕ) (sheet : List R)
      (s : Jobs)
      → length (skip offset rows) < fuel
      → (write_pages refuses fail id total size fuel rows offset processed sheet s).1
        ≢ err out_of_fuel
  unfolding write_pages
  write_pages-ends fail zero rows offset processed sheet s h = absurd (omega arith)
  write_pages-ends fail (suc fuel) rows offset processed sheet s h =
      let left = skip offset rows in
      let page = take size left in
      elim (Bool-cases (fail offset 0 || any refuses page)) [
        | inl f ↦ rw f (λ e. absurd (cc))
        | inr f ↦ elim (Bool-cases (fail offset 1)) [
          | inl g ↦ rw (f, g) (λ e. absurd (cc))
          | inr g ↦ elim (Bool-cases (ltb (length page) size)) [
            | inl short ↦ rw (f, g, short) (λ e. absurd (cc))
            | inr full ↦
                let enough : size ≤ length page = ground arith in
                let longer : length left ≡ size + length (skip size left) =
                  length-full size left enough in
                let next : skip size left ≡ skip (offset + size) rows =
                  skip-skip offset size rows in
                rw (f, g, full)
                  (write_pages-ends fail fuel rows (offset + size) (processed + length page)
                    (sheet ++ page) _ (omega (arith, longer, ap length next)))
          ]
        ]
      ]

module _ {R : Type 0} (refuses : R → Bool) (id : ℕ) (rows : List R) (s : Jobs) where
  -- The report of any number of rows ends: its fuel is never used up, whatever fails on the way.
  pub build_list-ends :
      (opens : ℕ → Bool) (fail : ℕ → ℕ → Bool)
      → (build_list refuses opens fail id rows s).1 ≢ err out_of_fuel
  unfolding build_list
  build_list-ends opens fail = elim (Bool-cases (opens 0 || opens 1)) [
    | inl f ↦ rw f (λ e. absurd (cc))
    | inr f ↦ elim (Bool-cases (opens 2)) [
      | inl g ↦ rw (f, g) (λ e. absurd (cc))
      | inr g ↦
          rw (f, g)
            (write_pages-ends refuses id (length rows) page_size (omega arith) fail
              (suc (length rows)) rows 0 0 [] _ (omega arith))
    ]
  ]

  -- A report of rows that the spreadsheet takes, where no call fails, has all the rows of its query in
  -- their order, and reports their number.
  pub build_list-all :
      any refuses rows ≡ false
      → (build_list refuses (λ _. false) (λ _ _. false) id rows s).1 ≡ ok (length rows, rows)
  unfolding build_list
  build_list-all h =
      let same : 0 + length rows ≡ length rows = omega arith in
      write_pages-all refuses id (length rows) page_size (omega arith) (suc (length rows)) rows 0 0
        [] _ (omega arith) h
      ∙ rw same refl
