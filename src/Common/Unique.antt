-- ===== src/Common/Unique.antt =====
-- Unique indexes: no two rows of a table agree under a Boolean test.
use mathlib.Core.Path.{◌≡◌, refl, ◌∙◌}
use mathlib.Core.Logic.{inl, inr}
use mathlib.Core.Bool.{Bool, true, false}
use mathlib.Core.List.{List, [], ◌∷◌}
use native.Mathlib.Omega.{arith}
use check.Common.Tests.{Bool-cases}
use check.Common.Lists.{any}
use check.Common.Tables.{update_where, insert_row}

module _ {A : Type 0} where
  pub any-insert_false :
      (p : A → Bool) (x : A) (xs : List A)
      → any p xs ≡ false
      → p x ≡ false
      → any p (insert_row x xs) ≡ false
  any-insert_false p x [] h e = ground arith
  any-insert_false p x (y ∷ ys) h e = ground (arith, any-insert_false p x ys)

  pub any-insert_true :
      (p : A → Bool) (x : A) (xs : List A) → any p xs ≡ true → any p (insert_row x xs) ≡ true
  any-insert_true p x [] h = cc
  any-insert_true p x (y ∷ ys) h = ground (arith, any-insert_true p x ys)

  pub any-insert_new :
      (p : A → Bool) (x : A) (xs : List A) → p x ≡ true → any p (insert_row x xs) ≡ true
  any-insert_new p x [] h = ground arith
  any-insert_new p x (y ∷ ys) h = ground (arith, any-insert_new p x ys)

  module _ (same : A → A → Bool) where
    abbrev pub Distinct : List A → Type 0
    Distinct [] = Unit
    Distinct (x ∷ xs) = (any (same x) xs ≡ false) × Distinct xs

    pub Distinct-insert :
        (x : A) (xs : List A)
        → any (λ y. same y x) xs ≡ false
        → Distinct xs
        → Distinct (insert_row x xs)
    Distinct-insert x [] n h = (refl, tt)
    Distinct-insert x (y ∷ ys) n h =
        (any-insert_false (same y) x ys h.0 (ground arith), Distinct-insert x ys (ground arith) h.1)

    any-update_where :
        (x : A) (p : A → Bool) (f : A → A) (xs : List A)
        → ((y : A) → same x (f y) ≡ same x y)
        → any (same x) (update_where p f xs) ≡ any (same x) xs
    any-update_where x p f [] e = refl
    any-update_where x p f (y ∷ ys) e = ground (arith, any-update_where x p f ys e, e y)

    any-same :
        (a b : A) (xs : List A)
        → ((y : A) → same a y ≡ same b y)
        → any (same a) xs ≡ any (same b) xs
    any-same a b [] e = refl
    any-same a b (y ∷ ys) e = ground (arith, any-same a b ys e, e y)

    -- An update that the test does not see keeps the rows distinct.
    pub Distinct-update :
        (p : A → Bool) (f : A → A) (xs : List A)
        → ((x y : A) → same x (f y) ≡ same x y)
        → ((x y : A) → same (f x) y ≡ same x y)
        → Distinct xs
        → Distinct (update_where p f xs)
    Distinct-update p f [] right left h = tt
    Distinct-update p f (x ∷ xs) right left h = elim (Bool-cases (p x)) [
      | inl e ↦ rw e (
        any-update_where (f x) p f xs (right (f x)) ∙ any-same (f x) x xs (left x) ∙ h.0,
        Distinct-update p f xs right left h.1,
      )
      | inr e ↦
          rw e (any-update_where x p f xs (right x) ∙ h.0, Distinct-update p f xs right left h.1)
    ]
