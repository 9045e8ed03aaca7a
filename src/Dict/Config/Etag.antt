-- ===== src/Dict/Config/Etag.antt =====
-- The conditional read: what `If-None-Match` matches, and that a written value is read back.
use check.Common.{
  ℕ, ◌≡◌, ◌⊎◌, refl, ap, String, true, Option, some, List, [], ◌∷◌, ◌++◌, arith, ◌==◌, find?,
  update_where, insert_row, Bool-cases, Option-cases, inl, inr,
}
use check.Dict.Defs.{Bytes}
use check.Dict.Config.{
  AppConfig, active, deactivate, quote, strip_weak, strip_end, strip_quotes, bytes_eq, etag_matches,
}

-- `ETag: "<hash>"`
abbrev pub quoted : Bytes → Bytes
quoted h = quote ∷ h ++ quote ∷ []

abbrev pub weak : Bytes → Bytes
weak v = b'W' ∷ b'/' ∷ v

pub bytes_eq_refl : (v : Bytes) → bytes_eq v v ≡ true
bytes_eq_refl [] = refl
bytes_eq_refl (a ∷ v) = ground (arith, bytes_eq_refl v)

bytes_eq-eq : (v w : Bytes) → bytes_eq v w ≡ true → v ≡ w
bytes_eq-eq [] [] h = refl
bytes_eq-eq [] (b ∷ w) h = cc
bytes_eq-eq (a ∷ v) [] h = cc
bytes_eq-eq (a ∷ v) (b ∷ w) h = ground (arith, bytes_eq-eq v w)

strip_end-append : (h : Bytes) → strip_end (h ++ quote ∷ []) ≡ some h
unfolding strip_end
strip_end-append [] = refl
strip_end-append (a ∷ h) = rw (strip_end-append h)

strip_end-eq : (v init : Bytes) → strip_end v ≡ some init → v ≡ init ++ quote ∷ []
unfolding strip_end
strip_end-eq [] init h = cc
strip_end-eq (a ∷ []) init h = ground arith
strip_end-eq (a ∷ b ∷ v) init h = elim (Option-cases (strip_end (b ∷ v))) [
  | inl n ↦ cc (rw n at h)
  | inr (i, e) ↦
      let q : a ∷ i ≡ init = cc (rw e at h) in rw (← q) (ap (λ w. a ∷ w) (strip_end-eq (b ∷ v) i e))
]

strip_quotes-quoted : (h : Bytes) → strip_quotes (quoted h) ≡ h
unfolding strip_quotes
strip_quotes-quoted h = rw (strip_end-append h)

strip_quotes-cases : (v : Bytes) → (v ≡ strip_quotes v) ⊎ (v ≡ quoted (strip_quotes v))
unfolding strip_quotes
strip_quotes-cases [] = inl refl
strip_quotes-cases (a ∷ rest) = elim (Bool-cases (a == quote)) [
  | inr n ↦ inl (rw n)
  | inl e ↦ elim (Option-cases (strip_end rest)) [
    | inl n ↦ inl (rw (e, n))
    | inr (i, p) ↦ inr (rw (e, p) (ground (arith, strip_end-eq rest i p)))
  ]
]

strip_weak-cases : (v : Bytes) → (v ≡ strip_weak v) ⊎ (v ≡ weak (strip_weak v))
unfolding strip_weak
strip_weak-cases [] = inl refl
strip_weak-cases (a ∷ []) = inl refl
strip_weak-cases (a ∷ b ∷ rest) = ground arith

strip_weak-quoted : (h : Bytes) → strip_weak (quoted h) ≡ quoted h
unfolding strip_weak
strip_weak-quoted [] = refl
strip_weak-quoted (a ∷ h) = refl

-- A header that matches is the stored hash, plain or in quotes, with or without the weak prefix.
pub etag_matches_sound :
    (v stored : Bytes)
    → etag_matches v stored ≡ true
    → (v ≡ stored) ⊎ (v ≡ quoted stored) ⊎ (v ≡ weak stored) ⊎ (v ≡ weak (quoted stored))
unfolding etag_matches
etag_matches_sound v stored h =
    let e : strip_quotes (strip_weak v) ≡ stored = bytes_eq-eq _ stored h in
    ground (arith, strip_quotes-cases (strip_weak v), strip_weak-cases v)

-- The two forms that carry quotes always match.
pub etag_matches-quoted :
    (stored : Bytes)
    → (etag_matches (quoted stored) stored ≡ true)
      × (etag_matches (weak (quoted stored)) stored ≡ true)
unfolding etag_matches strip_weak
etag_matches-quoted stored = (
  rw (strip_weak-quoted stored, strip_quotes-quoted stored) (bytes_eq_refl stored),
  rw (strip_quotes-quoted stored) (bytes_eq_refl stored),
)

pub find-swapped :
    (key : String) (by : Option ℕ) (x : AppConfig) (rs : List AppConfig)
    → active key x ≡ true
    → find? (active key) (insert_row x (update_where (active key) (deactivate by) rs)) ≡ some x
find-swapped key by x [] e = rw e
find-swapped key by x (r ∷ rs) e = ground (arith, find-swapped key by x rs e)
