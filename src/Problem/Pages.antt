-- ===== src/Problem/Pages.antt =====
-- The pages of the problem list, the map layer and the processing log against the table.
use check.Common.{
  ℕ, ◌+◌, ◌≤◌, ℤ, pos, negsuc, ◌≡◌, refl, ap, sym, ◌∙◌, Bool, true, false, Option, List, [], ◌∷◌,
  ◌++◌, All, All-map, keep, length, take, skip, Ordered, Ordered-take, Ordered-skip, All-take,
  All-skip, All-keep, All-order_by, length-take-le, take-skip, skip-skip, arith, Bool-cases,
  Option-cases, Result-cases, inl, inr, ok, Serial, keep-perm, length-perm,
}
use mathlib.Core.List.{Permᴰ, Mem, mem-cons_self, mem-cons_of_mem}
use check.Problem.Defs.{Bytes, Row, Db, Problem, scan_problem, problem_at, ListFilter}
use check.Problem.Queries.{
  matches, newer, capture_of, scan_all, selected, list, DictLabel, ProblemFeature, scan_feature,
  feature_at, map_limit_max, map_limit, map_layer,
}
use check.Problem.Selected.{selected-Ordered, selected-perm}
use check.Problem.Scan.{
  length-scan_all, scan_all-append, scan_all-All, scan_all-Ordered, scan_all-ids, ids,
}

list-read :
    {G : Type 0} (decode : Bytes → Option G) (fail : ℕ → Bool) (f : ListFilter) (limit offset : ℕ)
    (db : Db) {page : List (Problem G)} {total : ℕ}
    → list decode fail f limit offset db ≡ ok (page, total)
    → (scan_all (scan_problem decode) (take limit (skip offset (selected f db))) ≡ ok page)
      × (total ≡ length (keep (matches f) db.problems.rows))
unfolding list
list-read decode fail f limit offset db h = elim (Bool-cases (fail 0)) [
  | inl e ↦ absurd (cc (rw e at h))
  | inr e ↦
      elim (Result-cases
        (scan_all (scan_problem decode) (take limit (skip offset (selected f db))))) [
          | inr (x, s) ↦ absurd (cc (rw (e, s) at h))
          | inl (bs, s) ↦ elim (Bool-cases (fail 1)) [
            | inl g ↦ absurd (cc (rw (e, s, g) at h))
            | inr g ↦ let left = rw (e, s, g) at h in (cc, cc)
          ]
        ]
]

members : {A : Type 0} (rows : List A) → All (λ row. Mem row rows) rows
members [] = tt
members (row ∷ rows) = (
  mem-cons_self,
  All-map (λ r. Mem r rows) (λ r. Mem r (row ∷ rows)) rows (λ r m. mem-cons_of_mem row m)
      (members rows),
)

abbrev pub capture_key : {G : Type 0} → Problem G → ℕ × ℕ
capture_key p = (p.captured_at, p.id)

scan_problem-key :
    {G : Type 0} (decode : Bytes → Option G) (r : Row) (p : Problem G)
    → scan_problem decode r ≡ ok p
    → capture_key p ≡ capture_of r
scan_problem-key decode r p h = elim (Option-cases (decode r.geom)) [
  | inl e ↦ absurd (cc (rw (e, scan_problem) at h))
  | inr (g, e) ↦
      let left = rw (e, scan_problem) at h in
      let same : problem_at r g ≡ p = cc in ap capture_key (sym same)
]

scan_feature-id :
    {G : Type 0} (render : Bytes → Option G) (items : List DictLabel) (r : Row)
    (p : ProblemFeature G)
    → scan_feature render items r ≡ ok p
    → p.id ≡ r.id
scan_feature-id render items r p h = elim (Option-cases (render r.geom)) [
  | inl e ↦ absurd (cc (rw (e, scan_feature) at h))
  | inr (g, e) ↦
      let left = rw (e, scan_feature) at h in
      let same : feature_at items r g ≡ p = cc in ap (λ q. q.id) (sym same)
]

map_limit-le : (limit : ℤ) → map_limit limit ≤ map_limit_max
map_limit-le (pos n) = ground arith
map_limit-le (negsuc n) = omega arith

module _ {G : Type 0} (decode : Bytes → Option G) where
  -- A page that is reported has at most `limit` problems, no older one stands ahead of a newer one, every
  -- one of them is read from a row of the table that is not deleted and passes the filter, and the total is
  -- the number of all such rows.
  pub list-eq-ok :
      (fail : ℕ → Bool) (f : ListFilter) (limit offset : ℕ) (db : Db) (page : List (Problem G))
      (total : ℕ)
      → list decode fail f limit offset db ≡ ok (page, total)
      → (length page ≤ limit)
        × Ordered (λ p q. newer (capture_key p) (capture_key q)) page
        × All
            (λ p.
              (r : Row) × Mem r db.problems.rows
              × (matches f r ≡ true)
              × (scan_problem decode r ≡ ok p))
            page
        × (total ≡ length (keep (matches f) db.problems.rows))
  list-eq-ok fail f limit offset db page total h =
      let (read, counted) = list-read decode fail f limit offset db h in
      let rows = take limit (skip offset (selected f db)) in
      let older_later = λ (a : Row) (b : Row). newer (capture_of a) (capture_of b) in
      let Passing = λ (r : Row). Mem r db.problems.rows × (matches f r ≡ true) in
      let passing : All Passing rows = All-take Passing limit (skip offset (selected f db)) (
        All-skip Passing offset (selected f db) (
          All-order_by Passing older_later (keep (matches f) db.problems.rows) (
            All-keep (λ r. Mem r db.problems.rows) (matches f) db.problems.rows
              (members db.problems.rows)))) in
      (
        omega (
          arith,
          length-take-le limit (skip offset (selected f db)),
          length-scan_all (scan_problem decode) rows read,
        ),
        scan_all-Ordered (scan_problem decode) older_later _ rows
            (λ x y b c s t.
              ap (λ key. newer key (capture_key c)) (scan_problem-key decode x b s)
              ∙ ap (λ key. newer (capture_of x) key) (scan_problem-key decode y c t))
            (Ordered-take older_later limit (skip offset (selected f db))
              (Ordered-skip older_later offset (selected f db) (selected-Ordered f db)))
            read,
        scan_all-All (scan_problem decode) Passing _ rows (λ r p (m, q) s. (r, m, q, s)) passing
            read,
        counted,
      )

  -- Two pages that follow each other, read from the same problems, which have serial ids and which the
  -- database may hold in another order at the second read: they are, in this order, the page of both sizes
  -- together as the first table gives it when nothing fails, and report the same total.
  pub list-pages :
      (fail fail' : ℕ → Bool) (f : ListFilter) (n m offset : ℕ) (db db' : Db)
      (page next : List (Problem G)) (total total' : ℕ)
      → Serial Row.id 0 db.problems.next db.problems.rows
      → Permᴰ db.problems.rows db'.problems.rows
      → list decode fail f n offset db ≡ ok (page, total)
      → list decode fail' f m (offset + n) db' ≡ ok (next, total')
      → (list decode (λ _. false) f (n + m) offset db ≡ ok (page ++ next, total)) × (total' ≡ total)
  unfolding list
  list-pages fail fail' f n m offset db db' page next total total' serial reordered h k =
      let (read, counted) = list-read decode fail f n offset db h in
      let (read', counted') = list-read decode fail' f m (offset + n) db' k in
      let rows = selected f db in
      let same_rows = selected-perm f db db' serial reordered in
      let both =
        scan_all-append (scan_problem decode) (take n (skip offset rows))
          (take m (skip (offset + n) rows)) read
          (ap (λ l. scan_all (scan_problem decode) (take m (skip (offset + n) l))) same_rows
            ∙ read') in
      let same : take n (skip offset rows) ++ take m (skip (offset + n) rows)
          ≡ take (n + m) (skip offset rows) =
        ap (λ later. take n (skip offset rows) ++ take m later) (sym (skip-skip offset n rows))
        ∙ take-skip n m (skip offset rows) in
      let whole : scan_all (scan_problem decode) (take (n + m) (skip offset rows))
          ≡ ok (page ++ next) =
        ap (scan_all (scan_problem decode)) (sym same) ∙ both in
      (
        rw (whole, counted, list) refl,
        counted' ∙ sym (length-perm (keep-perm (matches f) reordered)) ∙ sym counted,
      )

  -- The map layer has at most 5000 features, whatever limit is asked for, and they are those of the first
  -- page of the list with the same filter and this limit, one for one and in the same order.
  pub map_layer-list :
      (render : Bytes → Option G) (items : List DictLabel) (f : ListFilter) (limit : ℤ) (db : Db)
      (features : List (ProblemFeature G)) (page : List (Problem G)) (total : ℕ) (fail : ℕ → Bool)
      → map_layer render items false f limit db ≡ ok features
      → list decode fail f (map_limit limit) 0 db ≡ ok (page, total)
      → (length features ≤ map_limit_max) × (ids ProblemFeature.id features ≡ ids Problem.id page)
  unfolding map_layer
  map_layer-list render items f limit db features page total fail h k =
      let (read, _) = list-read decode fail f (map_limit limit) 0 db k in
      let rows = take (map_limit limit) (selected f db) in
      (
        omega (
          arith,
          length-take-le (map_limit limit) (selected f db),
          length-scan_all (scan_feature render items) rows h,
          map_limit-le limit,
        ),
        scan_all-ids (scan_feature render items) Row.id ProblemFeature.id rows
              (scan_feature-id render items) h
            ∙ sym (
                scan_all-ids (scan_problem decode) Row.id Problem.id rows
                  (λ r p s. ap (λ key. key.1) (scan_problem-key decode r p s)) read),
      )
