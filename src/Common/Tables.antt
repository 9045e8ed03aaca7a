-- ===== src/Common/Tables.antt =====
-- Database tables as lists of rows in the order of their serial ids, and the statements
-- `UPDATE … WHERE` and `INSERT` on them.
use Prim.Native.Nat.{ℕ, suc}
use mathlib.Core.Path.{◌≡◌, refl}
use mathlib.Core.Logic.{inl, inr}
use mathlib.Core.Bool.{Bool, true, false}
use mathlib.Core.Option.{Option, none, some}
use mathlib.Core.List.{List, [], ◌∷◌, ◌++◌}
use native.Mathlib.Omega.{arith}
use check.Common.Tests.{if◌then◌else◌, Bool-cases}
use check.Common.Lists.{length, All}

-- `COALESCE(new, old)`: a null parameter leaves the column as it is.
abbrev pub coalesce {ℓ} : {A : Type ℓ} → Option A → A → A
coalesce none old = old
coalesce (some v) old = v

abbrev pub coalesce? {ℓ} : {A : Type ℓ} → Option A → Option A → Option A
coalesce? none old = old
coalesce? (some v) old = some v

module _ {ℓ} {A : Type ℓ} where
  -- `UPDATE … SET f WHERE p`
  abbrev pub update_where : (A → Bool) → (A → A) → List A → List A
  update_where p f [] = []
  update_where p f (x ∷ xs) = (if p x then f x else x) ∷ update_where p f xs

  -- `INSERT`: the new row has the highest serial id.
  abbrev pub insert_row : A → List A → List A
  insert_row x xs = xs ++ x ∷ []

  pub length-update_where :
      (p : A → Bool) (f : A → A) (xs : List A) → length (update_where p f xs) ≡ length xs
  length-update_where p f [] = refl
  length-update_where p f (x ∷ xs) = omega (arith, length-update_where p f xs)

module _ {ℓ κ} {A : Type ℓ} where
  pub All-update_where :
      (P Q : A → Type κ) (p : A → Bool) (f : A → A) (xs : List A)
      → ((x : A) → P x → p x ≡ true → Q (f x))
      → ((x : A) → P x → p x ≡ false → Q x)
      → All P xs
      → All Q (update_where p f xs)
  All-update_where P Q p f [] hit miss h = tt
  All-update_where P Q p f (x ∷ xs) hit miss h = elim (Bool-cases (p x)) [
    | inl e ↦ rw e (hit x h.0 e, All-update_where P Q p f xs hit miss h.1)
    | inr e ↦ rw e (miss x h.0 e, All-update_where P Q p f xs hit miss h.1)
  ]

-- A table with the next value of its sequence.
pub record Table (R : Type 0) : Type 0 where
  pub rows : List R
  pub next : ℕ

abbrev pub add_row : {R : Type 0} → (ℕ → R) → Table R → Table R
add_row row t = record { rows = insert_row (row t.next) t.rows; next = suc t.next }
