-- ===== src/Rbac/Exact.antt =====
-- That an assignment of roles or permissions leaves exactly the given ones (backend/internal/rbac).
use check.Common.{
  ℕ, suc, ◌≡◌, refl, ap, ◌∙◌, String, Bool, true, false, not, ◌&&◌, ◌||◌, List, [], ◌∷◌, str_eq,
  str_eq_iff, str_eq_refl, if◌then◌else◌, any, keep, All, arith, Bool-cases, inl, inr, ok,
  insert_row,
}
use check.Rbac.Rules.{
  Rule, value_at, pad6, same_rule, has_rule, agrees, remove_filtered_policy, add_rules,
  replace_rules, role_rule, permission_rule, each, set_roles_for_user, set_permissions_for_role,
  remove_role,
}

-- An empty value is no condition of a filter.
abbrev pub admits_value : String → String → Bool
admits_value key value = str_eq key "" || str_eq value key

-- The rules that an assignment to `key` replaces: with an empty key all of the type.
abbrev pub of_key : String → String → Rule → Bool
of_key ptype key r = str_eq r.ptype ptype && admits_value key r.v0

same_rule-eq : (a b : Rule) → same_rule a b ≡ true → a ≡ b
same_rule-eq a b h =
    let e0 : a.ptype ≡ b.ptype = ground (arith, str_eq_iff a.ptype b.ptype) in
    let e1 : a.v0 ≡ b.v0 = ground (arith, str_eq_iff a.v0 b.v0) in
    let e2 : a.v1 ≡ b.v1 = ground (arith, str_eq_iff a.v1 b.v1) in
    let e3 : a.v2 ≡ b.v2 = ground (arith, str_eq_iff a.v2 b.v2) in
    let e4 : a.v3 ≡ b.v3 = ground (arith, str_eq_iff a.v3 b.v3) in
    let e5 : a.v4 ≡ b.v4 = ground (arith, str_eq_iff a.v4 b.v4) in
    let e6 : a.v5 ≡ b.v5 = ground (arith, str_eq_iff a.v5 b.v5) in
    λ i. record { ptype = e0 i; v0 = e1 i; v1 = e2 i; v2 = e3 i; v3 = e4 i; v4 = e5 i; v5 = e6 i }

has-keep :
    (r : Rule) (q : Rule → Bool) (rules : List Rule)
    → has_rule r (keep (λ s. not (q s)) rules) ≡ (not (q r) && has_rule r rules)
has-keep r q [] = ground arith
has-keep r q (s ∷ rules) = elim (Bool-cases (same_rule r s)) [
  | inl e ↦ let same : r ≡ s = same_rule-eq r s e in ground (arith, has-keep r q rules, ap q same)
  | inr e ↦ ground (arith, has-keep r q rules)
]

any-insert :
    {A : Type 0} (p : A → Bool) (x : A) (xs : List A) → any p (insert_row x xs) ≡ (p x || any p xs)
any-insert p x [] = refl
any-insert p x (y ∷ ys) = ground (arith, any-insert p x ys)

has-insert :
    (r x : Rule) (rules : List Rule)
    → has_rule r (if has_rule x rules then rules else insert_row x rules)
      ≡ (same_rule r x || has_rule r rules)
has-insert r x rules = elim (Bool-cases (has_rule x rules)) [
  | inl e ↦ elim (Bool-cases (same_rule r x)) [
    | inl k ↦ rw (e, k) (ap (λ y. has_rule y rules) (same_rule-eq r x k) ∙ e)
    | inr k ↦ rw (e, k) refl
  ]
  | inr e ↦ rw e (any-insert (same_rule r) x rules)
]

has-add_rules :
    (fail : ℕ → Bool) (i : ℕ) (r : Rule) (new rules : List Rule)
    → (add_rules fail i new rules).1 ≡ ok tt
    → has_rule r (add_rules fail i new rules).0 ≡ (has_rule r new || has_rule r rules)
unfolding add_rules
has-add_rules fail i r [] rules h = refl
has-add_rules fail i r (x ∷ new) rules h = elim (Bool-cases (fail i)) [
  | inl f ↦ absurd (cc (rw f at h))
  | inr f ↦
      let after = if has_rule x rules then rules else insert_row x rules in
      let later : has_rule r (add_rules fail (suc i) new after).0
          ≡ (has_rule r new || has_rule r after) =
        has-add_rules fail (suc i) r new after (rw f at h) in
      let here = has-insert r x rules in rw f (later ∙ ground arith)
]

no_other :
    (ptype key : String) (r : Rule) (new : List Rule)
    → of_key ptype key r ≡ false
    → All (λ x. of_key ptype key x ≡ true) new
    → has_rule r new ≡ false
no_other ptype key r [] n h = refl
no_other ptype key r (x ∷ new) n h = elim (Bool-cases (same_rule r x)) [
  | inl e ↦
      let same : of_key ptype key r ≡ of_key ptype key x =
        ap (of_key ptype key) (same_rule-eq r x e) in
      absurd (cc (h.0))
  | inr e ↦ rw e (no_other ptype key r new n h.1)
]

agrees-key :
    (ptype key : String) (r : Rule)
    → (str_eq r.ptype ptype && agrees 0 (key ∷ []) r) ≡ of_key ptype key r
agrees-key ptype key r = ground arith

or_true : (b : Bool) → (b || true) ≡ true
or_true true = refl
or_true false = refl

or_false : (b : Bool) → (b || false) ≡ b
or_false true = refl
or_false false = refl

key_of :
    (ptype : String) (values : List String) (key : String)
    → value_at 0 values ≡ key
    → of_key ptype key (pad6 ptype values) ≡ true
key_of ptype values key e = rw (e, str_eq_refl ptype, str_eq_refl key) (or_true (str_eq key ""))

module _ (fail : ℕ → Bool) (ptype key : String) (new rules : List Rule) where
  -- After a replacement that succeeds, the rules of the key are those that were given, and every other rule
  -- is there as before.
  replace_rules-has :
      (r : Rule)
      → All (λ x. of_key ptype key x ≡ true) new
      → (replace_rules fail ptype key new rules).1 ≡ ok tt
      → has_rule r (replace_rules fail ptype key new rules).0
        ≡ (if of_key ptype key r then has_rule r new else has_rule r rules)
  unfolding remove_filtered_policy
  replace_rules-has r fits h = elim (Bool-cases (fail 0)) [
    | inl f ↦ absurd (cc (rw f at h))
    | inr f ↦
        let cleared = keep (λ s. not (str_eq s.ptype ptype && agrees 0 (key ∷ []) s)) rules in
        let later : has_rule r (add_rules fail 1 new cleared).0
            ≡ (has_rule r new || has_rule r cleared) =
          has-add_rules fail 1 r new cleared (rw f at h) in
        let before : has_rule r cleared ≡ (not (of_key ptype key r) && has_rule r rules) =
          has-keep r (λ s. str_eq s.ptype ptype && agrees 0 (key ∷ []) s) rules
          ∙ ap (λ b. not b && has_rule r rules) (agrees-key ptype key r) in
        rw f (
          later ∙ elim (Bool-cases (of_key ptype key r)) [
            | inl k ↦ rw (before, k) (or_false (has_rule r new))
            | inr k ↦ rw (before, k, no_other ptype key r new k fits) refl
          ])
  ]

each-of_key :
    {A : Type 0} (ptype key : String) (rule : A → Rule) (xs : List A)
    → ((x : A) → of_key ptype key (rule x) ≡ true)
    → All (λ x. of_key ptype key x ≡ true) (each rule xs)
each-of_key ptype key rule [] f = tt
each-of_key ptype key rule (x ∷ xs) f = (f x, each-of_key ptype key rule xs f)

module _ (fail : ℕ → Bool) (rules : List Rule) (r : Rule) where
  -- An assignment of roles that succeeds leaves, as rules that bind this user, those of the given roles and no
  -- others, and every other rule, of another user or a permission, as it was; with an empty name it leaves
  -- those of the given roles as the only rules that bind anyone.
  pub set_roles_for_user-exact :
      (username : String) (codes : List String)
      → (set_roles_for_user fail username codes rules).1 ≡ ok tt
      → has_rule r (set_roles_for_user fail username codes rules).0 ≡ (
          if of_key "g" username r
          then has_rule r (each (role_rule username) codes)
          else has_rule r rules)
  unfolding set_roles_for_user
  set_roles_for_user-exact username codes h =
      replace_rules-has fail "g" username (each (role_rule username) codes) rules r
        (each-of_key "g" username (role_rule username) codes
          (λ code. key_of "g" (username ∷ code ∷ []) username refl))
        h

  -- The same of the permissions of a role.
  pub set_permissions_for_role-exact :
      (role : String) (pairs : List (String × String))
      → (set_permissions_for_role fail role pairs rules).1 ≡ ok tt
      → has_rule r (set_permissions_for_role fail role pairs rules).0 ≡ (
          if of_key "p" role r
          then has_rule r (each (permission_rule role) pairs)
          else has_rule r rules)
  unfolding set_permissions_for_role
  set_permissions_for_role-exact role pairs h =
      replace_rules-has fail "p" role (each (permission_rule role) pairs) rules r
        (each-of_key "p" role (permission_rule role) pairs
          (λ (object, action). key_of "p" (role ∷ object ∷ action ∷ []) role refl))
        h

-- A rule that names the role: a permission of it, or its binding to a user. With an empty code every
-- permission and every binding counts.
abbrev pub names : String → Rule → Bool
names role r = of_key "p" role r || (str_eq r.ptype "g" && admits_value role r.v1)

-- The removal of a role that succeeds leaves no rule that names it, and every other rule as it was: of a role
-- with a code, its permissions and its bindings to users go; of a role whose code is empty, every permission
-- and every binding of anyone goes.
pub remove_role-exact :
    (fail : ℕ → Bool) (role : String) (rules : List Rule) (r : Rule)
    → (remove_role fail role rules).1 ≡ ok tt
    → has_rule r (remove_role fail role rules).0 ≡ (not (names role r) && has_rule r rules)
unfolding remove_role remove_filtered_policy
remove_role-exact fail role rules r h = elim (Bool-cases (fail 0)) [
  | inl f ↦ absurd (cc (rw f at h))
  | inr f ↦ elim (Bool-cases (fail 1)) [
    | inl g ↦ absurd (cc (rw (f, g) at h))
    | inr g ↦
        let first = λ (s : Rule). str_eq s.ptype "p" && agrees 0 (role ∷ []) s in
        let second = λ (s : Rule). str_eq s.ptype "g" && agrees 1 (role ∷ []) s in
        let one = has-keep r first rules in
        let two = has-keep r second (keep (λ s. not (first s)) rules) in
        rw (f, g) (two ∙ ap (λ b. not (second r) && b) one ∙ ground arith)
  ]
]
