-- ===== src/User/Names.antt =====
-- That a name belongs to one live account (backend/internal/user/service.go).
use check.Common.{
  ℕ, subst, ◌≡◌, refl, sym, String, Bool, true, false, not, ◌&&◌, Option, List, [], ◌∷◌, any, arith,
  Bool-cases, Option-cases, inl, inr, Distinct, Distinct-insert, update_where, Result, ok, err,
}
use check.User.Accounts.{
  UserErr, UserRow, UserCreate, UserUpdate, Users, with_id, set_user, revise, then_get, update,
  retire, delete, rehash, reset_password, new_user, bears, create_checked, create,
}

module _ {A : Type 0} (same : A → A → Bool) (f : A → A)
    (right : (x y : A) → same x (f y) ≡ true → same x y ≡ true)
    (left : (x y : A) → same (f x) y ≡ true → same x y ≡ true) where
  none-left : (x : A) (xs : List A) → any (same x) xs ≡ false → any (same (f x)) xs ≡ false
  none-left x [] h = refl
  none-left x (y ∷ ys) h = ground (arith, none-left x ys, left x y)

  none-update :
      (x : A) (p : A → Bool) (xs : List A)
      → any (same x) xs ≡ false
      → any (same x) (update_where p f xs) ≡ false
  none-update x p [] h = refl
  none-update x p (y ∷ ys) h = ground (arith, none-update x p ys, right x y)

  -- An update that makes no two rows the same keeps the rows distinct.
  Distinct-shrink :
      (p : A → Bool) (xs : List A) → Distinct same xs → Distinct same (update_where p f xs)
  Distinct-shrink p [] h = tt
  Distinct-shrink p (x ∷ xs) h = elim (Bool-cases (p x)) [
    | inl e ↦
        rw e (none-left x (update_where p f xs) (none-update x p xs h.0), Distinct-shrink p xs h.1)
    | inr e ↦ rw e (none-update x p xs h.0, Distinct-shrink p xs h.1)
  ]

none_and :
    {A : Type 0} (p : A → Bool) (xs : List A) → any p xs ≡ false → any (λ y. p y && true) xs ≡ false
none_and p [] h = refl
none_and p (x ∷ xs) h = ground (arith, none_and p xs)

-- A request to the service. `finishes` is the part of a creation after its check, so that the two
-- statements of concurrent creations stand in any order.
pub data Call : Type 0 where
  creates : (String → Option String) → (ℕ → Bool) → UserCreate → ℕ → Call
  finishes : (String → Option String) → (ℕ → Bool) → UserCreate → ℕ → Call
  updates : (ℕ → Bool) → ℕ → UserUpdate → ℕ → Call
  deletes : Bool → ℕ → ℕ → Call
  resets : (String → Option String) → Bool → ℕ → String → ℕ → Call

module _ (lower : String → String) where
  -- Two live accounts with one name, without regard to case.
  abbrev pub same_name : UserRow → UserRow → Bool
  same_name a b = bears lower b.username a && not b.deleted

  abbrev pub step : Call → Users → Users
  step (creates bcrypt fail input actor) users = (create lower bcrypt fail input actor users).0
  step (finishes bcrypt fail input actor) users =
      (create_checked lower bcrypt fail input actor users).0
  step (updates fail id input actor) users = (update fail id input actor users).0
  step (deletes fails id actor) users = (delete fails id actor users).0
  step (resets bcrypt fails id password actor) users =
      (reset_password bcrypt fails id password actor users).0

  abbrev pub run : List Call → Users → Users
  run [] users = users
  run (call ∷ calls) users = run calls (step call users)

  abbrev Unique : Users → Type 0
  Unique users = Distinct same_name users.rows

  set_user-Unique :
      (fails : Bool) (id : ℕ) (change : UserRow → UserRow) (users : Users)
      → ((x y : UserRow) → same_name x (change y) ≡ true → same_name x y ≡ true)
      → ((x y : UserRow) → same_name (change x) y ≡ true → same_name x y ≡ true)
      → Unique users
      → Unique (set_user fails id change users).0
  set_user-Unique fails id change users right left h = elim (Bool-cases fails) [
    | inl e ↦ rw e h
    | inr e ↦ elim (Bool-cases (any (with_id id) users.rows)) [
      | inl f ↦ rw (e, f) (Distinct-shrink same_name change right left (with_id id) users.rows h)
      | inr f ↦ rw (e, f) h
    ]
  ]

  then_get-users :
      (fails : Bool) (id : ℕ) (r : Users × Result UserErr (Unit {0}))
      → (then_get fails id r).0 ≡ r.0
  then_get-users fails id (users, err e) = refl
  then_get-users fails id (users, ok done) = refl

  create_checked-Unique :
      (bcrypt : String → Option String) (fail : ℕ → Bool) (input : UserCreate) (actor : ℕ)
      (users : Users)
      → Unique users
      → Unique (create_checked lower bcrypt fail input actor users).0
  unfolding create_checked
  create_checked-Unique bcrypt fail input actor users h =
      elim (Option-cases (bcrypt input.password)) [
        | inl n ↦ rw (n, create_checked) h
        | inr (hash, n) ↦ elim (Bool-cases (fail 1)) [
          | inl f ↦ rw (n, f, create_checked) h
          | inr f ↦ elim (Bool-cases (any (bears lower input.username) users.rows)) [
            | inl t ↦ rw (n, f, t, create_checked) h
            | inr t ↦
                rw (n, f, t, create_checked)
                  (Distinct-insert same_name (new_user input hash actor users.next) users.rows
                    (none_and (bears lower input.username) users.rows t) h)
          ]
        ]
      ]

  create-Unique :
      (bcrypt : String → Option String) (fail : ℕ → Bool) (input : UserCreate) (actor : ℕ)
      (users : Users)
      → Unique users
      → Unique (create lower bcrypt fail input actor users).0
  unfolding create
  create-Unique bcrypt fail input actor users h = elim (Bool-cases (fail 0)) [
    | inl f ↦ rw (f, create) h
    | inr f ↦ elim (Bool-cases (any (bears lower input.username) users.rows)) [
      | inl t ↦ rw (f, t, create) h
      | inr t ↦ rw (f, t, create) (create_checked-Unique bcrypt fail input actor users h)
    ]
  ]

  update-Unique :
      (fail : ℕ → Bool) (id : ℕ) (input : UserUpdate) (actor : ℕ) (users : Users)
      → Unique users
      → Unique (update fail id input actor users).0
  unfolding update
  update-Unique fail id input actor users h =
      let set = set_user (fail 0) id (revise input actor) users in
      subst Unique (sym (then_get-users (fail 1) id set))
        (set_user-Unique (fail 0) id (revise input actor) users (λ x y e. e) (λ x y e. e) h)

  reset_password-Unique :
      (bcrypt : String → Option String) (fails : Bool) (id : ℕ) (password : String) (actor : ℕ)
      (users : Users)
      → Unique users
      → Unique (reset_password bcrypt fails id password actor users).0
  unfolding reset_password
  reset_password-Unique bcrypt fails id password actor users h =
      elim (Option-cases (bcrypt password)) [
        | inl n ↦ rw (n, reset_password) h
        | inr (hash, n) ↦
            rw (n, reset_password)
              (set_user-Unique fails id (rehash hash actor) users (λ x y e. e) (λ x y e. e) h)
      ]

  step-Unique : (call : Call) (users : Users) → Unique users → Unique (step call users)
  unfolding delete
  step-Unique (creates bcrypt fail input actor) users h =
      create-Unique bcrypt fail input actor users h
  step-Unique (finishes bcrypt fail input actor) users h =
      create_checked-Unique bcrypt fail input actor users h
  step-Unique (updates fail id input actor) users h = update-Unique fail id input actor users h
  step-Unique (deletes fails id actor) users h =
      set_user-Unique fails id (retire actor) users (λ x y e. ground arith) (λ x y e. ground arith)
        h
  step-Unique (resets bcrypt fails id password actor) users h =
      reset_password-Unique bcrypt fails id password actor users h

  -- Whatever accounts are created, updated, deleted or given a new password, also where two creations check
  -- the name before either of them inserts: no two accounts that are not deleted have the same name without
  -- regard to case.
  pub run-Distinct :
      (calls : List Call) (users : Users)
      → Distinct same_name users.rows
      → Distinct same_name (run calls users).rows
  run-Distinct [] users h = h
  run-Distinct (call ∷ calls) users h =
      run-Distinct calls (step call users) (step-Unique call users h)
