-- ===== src/Rbac/Access.antt =====
-- Who passes the middleware, and what an administrator's assignment changes (backend/internal/rbac).
use check.Common.{
  ℕ, ◌≡◌, refl, ap, sym, ◌∙◌, String, Bool, true, false, not, ◌&&◌, Option, none, some, List, ◌==◌,
  str_eq, if◌then◌else◌, find?, Bool-cases, Option-cases, Result-cases, inl, inr, Result, ok,
}
use check.Rbac.Rules.{Rule, has_rule, role_rule, each, set_roles_for_user}
use check.Rbac.Service.{Role, Account, Db, codes_of, roles_by_ids, set_user_roles}
use check.Rbac.Exact.{of_key, set_roles_for_user-exact}
use check.Rbac.Gate.{Claims, TokenErr, expired, invalid, authn, authz, protect}

module _ (parse : String → Result TokenErr Claims)
    (enforce : String → String → String → Option Bool) where
  -- A request that passes both middlewares has carried a token that the token parser accepts, with the name
  -- of a user whom the policy allows this method on this path.
  pub protect-eq-ok :
      (bearer : Option String) (path method : String) (claims : Claims)
      → protect parse enforce bearer path method ≡ ok claims
      → ((token : String) × (bearer ≡ some token) × (parse token ≡ ok claims))
        × (str_eq claims.username "" ≡ false)
        × (enforce claims.username path method ≡ some true)
  unfolding protect authn authz
  protect-eq-ok none path method claims h = absurd (cc)
  protect-eq-ok (some token) path method claims h = elim (Result-cases (parse token)) [
    | inr (expired, p) ↦ absurd (cc (rw (p, authn, protect) at h))
    | inr (invalid, p) ↦ absurd (cc (rw (p, authn, protect) at h))
    | inl (who, p) ↦ elim (Bool-cases (str_eq who.username "")) [
      | inl e ↦ absurd (cc (rw (p, e, authn, authz, protect) at h))
      | inr e ↦ elim (Option-cases (enforce who.username path method)) [
        | inl n ↦ absurd (cc (rw (p, e, n, authn, authz, protect) at h))
        | inr (false, n) ↦ absurd (cc (rw (p, e, n, authn, authz, protect) at h))
        | inr (true, n) ↦
            let left = rw (p, e, n, authn, authz, protect) at h in
            let same : who ≡ claims = cc in
            (
              (token, refl, p ∙ ap ok same),
              ap (λ (c : Claims). str_eq c.username "") (sym same) ∙ e,
              ap (λ (c : Claims). enforce c.username path method) (sym same) ∙ n,
            )
      ]
    ]
  ]

-- An assignment of roles to a live user by an administrator that succeeds leaves, as the rules that bind the
-- user's name, those of the live roles among the given ids, and every other rule as it was. Where the user's
-- name is empty it replaces the bindings of all users: those of the given roles are then the only ones.
pub set_user_roles-exact :
    (fail fail_rule : ℕ → Bool) (id : ℕ) (ids : List ℕ) (db : Db) (shown : List Role) (u : Account)
    (r : Rule)
    → find? (λ (a : Account). a.id == id && not a.deleted) db.accounts ≡ some u
    → (set_user_roles fail fail_rule id ids db).1 ≡ ok shown
    → has_rule r (set_user_roles fail fail_rule id ids db).0.rules ≡ (
        if of_key "g" u.username r
        then has_rule r (each (role_rule u.username) (codes_of (roles_by_ids ids db)))
        else has_rule r db.rules)
unfolding set_user_roles
set_user_roles-exact fail fail_rule id ids db shown u r found h = elim (Bool-cases (fail 0)) [
  | inl f ↦ absurd (cc (rw (f, set_user_roles) at h))
  | inr f ↦ elim (Bool-cases (fail 1)) [
    | inl g ↦ absurd (cc (rw (f, found, g, set_user_roles) at h))
    | inr g ↦
        let codes = codes_of (roles_by_ids ids db) in
        elim (Result-cases (set_roles_for_user fail_rule u.username codes db.rules).1) [
          | inr (e, k) ↦ absurd (cc (rw (f, found, g, k, set_user_roles) at h))
          | inl (done, k) ↦
              rw (f, found, g, k, set_user_roles)
                (set_roles_for_user-exact fail_rule db.rules r u.username codes k)
        ]
  ]
]
