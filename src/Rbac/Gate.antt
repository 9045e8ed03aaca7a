-- ===== src/Rbac/Gate.antt =====
-- The middleware that lets a request pass (backend/internal/rbac/middleware.go). The token parser and the
-- policy engine's decision are parameters.
use check.Common.{ℕ, String, Bool, Option, none, some, str_eq, if◌then◌else◌, Result, ok, err}

-- `jwt.Claims`
pub record Claims : Type 0 where
  pub user_id : ℕ
  pub username : String
  pub roles : String

pub data TokenErr : Type 0 where
  expired invalid : TokenErr

-- The codes with which the middleware aborts.
pub data Refusal : Type 0 where
  unauthenticated token_expired forbidden internal : Refusal

-- `Authn`; `bearer` is what follows the prefix of the header, where it has one.
unfoldable pub authn : (String → Result TokenErr Claims) → Option String → Result Refusal Claims
authn parse none = err unauthenticated
authn parse (some token) = elim (parse token) [
  | ok claims ↦ ok claims
  | err e ↦ elim e [ expired ↦ err token_expired | invalid ↦ err unauthenticated ]
]

-- `Authz`
unfoldable pub authz :
    (String → String → String → Option Bool) → String → String → String → Result Refusal (Unit {0})
authz enforce username path method =
    if str_eq username "" then err unauthenticated else elim (enforce username path method) [
      | none ↦ err internal
      | some allowed ↦ if allowed then ok tt else err forbidden
    ]

-- The two in the order of a protected route.
unfoldable pub protect :
    (String → Result TokenErr Claims)
    → (String → String → String → Option Bool)
    → Option String
    → String
    → String
    → Result Refusal Claims
protect parse enforce bearer path method = elim (authn parse bearer) [
  | err e ↦ err e
  | ok claims ↦ elim (authz enforce claims.username path method) [
    | err e ↦ err e
    | ok done ↦ ok claims
  ]
]
