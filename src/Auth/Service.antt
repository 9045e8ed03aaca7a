-- ===== src/Auth/Service.antt =====
-- Login, refresh, logout and the change of a password (backend/internal/auth/service.go). The
-- database's `lower`, bcrypt, the enforcer's roles and the signer of access tokens are the
-- parameters `lower`, `compare_hash`, `roles_of` and `issue`. `fail i` says that the i-th call of the
-- database or of Redis fails.
use check.Common.{
  ℕ, String, Bool, not, ◌&&◌, Option, none, some, List, ◌==◌, str_eq, if◌then◌else◌, find?, Result,
  ok, err, update_where,
}
use check.Auth.Refresh.{
  AuthErr, refresh_not_found, invalid_credentials, old_password_wrong, db_fault, enforcer_fault,
  jwt_fault, hash_fault, RefreshEntry, create_token, revoke, rotate,
}

pub record User : Type 0 where
  pub id : ℕ
  pub username : String
  pub password_hash : String
  pub is_active : Bool
  pub last_login_at : Option ℕ
  pub updated_by : Option ℕ
  pub deleted : Bool

pub record AuthState : Type 0 where
  pub users : List User
  pub tokens : List RefreshEntry

pub record AuthTokens : Type 0 where
  pub access_token : String
  pub refresh_token : String
  pub user : User

abbrev pub live_user : ℕ → User → Bool
live_user id u = u.id == id && not u.deleted

abbrev pub named : (String → String) → String → User → Bool
named lower username u = str_eq (lower u.username) (lower username) && not u.deleted

abbrev pub has_user_id : ℕ → User → Bool
has_user_id id u = u.id == id

abbrev pub touch : ℕ → User → User
touch now u = record u { last_login_at = some now }

abbrev pub set_password : String → ℕ → User → User
set_password hash by u = record u { password_hash = hash; updated_by = some by }

module _ (roles_of : String → Option (List String))
    (issue : ℕ → String → List String → ℕ → Option String) (fail : ℕ → Bool) (ttl : ℕ)
    (fresh : Option String) (now : ℕ) where
  -- The roles and the access token of a user.
  unfoldable pub access_for : User → Result AuthErr String
  access_for u = elim (roles_of u.username) [
    | none ↦ err enforcer_fault
    | some roles ↦ elim (issue u.id u.username roles now) [
      | none ↦ err jwt_fault
      | some token ↦ ok token
    ]
  ]

  -- `Login` after the credentials are accepted.
  unfoldable pub open_session : User → AuthState → AuthState × Result AuthErr AuthTokens
  open_session u s = elim (access_for u) [
    | err e ↦ (s, err e)
    | ok access ↦
        let (tokens, created) = create_token (fail 1) ttl fresh u.id now s.tokens in
        elim created [
          | err e ↦ (record s { tokens = tokens }, err e)
          | ok refresh ↦ if fail 2 then (record s { tokens = tokens }, err db_fault) else (
            record s {
              users = update_where (has_user_id u.id) (touch now) s.users;
              tokens = tokens;
            },
            ok (record { access_token = access; refresh_token = refresh; user = u }),
          )
        ]
  ]

  -- `Login`
  unfoldable pub login :
      (String → String)
      → (String → String → Bool)
      → String
      → String
      → AuthState
      → AuthState × Result AuthErr AuthTokens
  login lower compare_hash username password s =
      if fail 0 then (s, err db_fault) else elim (find? (named lower username) s.users) [
        | none ↦ (s, err invalid_credentials)
        | some u ↦
            if not u.is_active
            then (s, err invalid_credentials)
            else if not (compare_hash u.password_hash password)
            then (s, err invalid_credentials)
            else open_session u s
      ]

  -- `Refresh` after the rotation.
  abbrev pub resume :
      AuthState
      → List RefreshEntry × Result AuthErr (String × ℕ)
      → AuthState × Result AuthErr AuthTokens
  resume s (tokens, err e) = (record s { tokens = tokens }, err e)
  resume s (tokens, ok (new_refresh, user_id)) =
      if fail 2
      then (record s { tokens = tokens }, err db_fault)
      else elim (find? (live_user user_id) s.users) [
        | none ↦ (record s { tokens = tokens }, err refresh_not_found)
        | some u ↦
            if not u.is_active
            then (
              record s { tokens = (revoke (fail 3) new_refresh tokens).0 },
              err refresh_not_found,
            )
            else elim (access_for u) [
              | err e ↦ (record s { tokens = tokens }, err e)
              | ok access ↦ (
                record s { tokens = tokens },
                ok (record { access_token = access; refresh_token = new_refresh; user = u }),
              )
            ]
      ]

  -- `Refresh`
  unfoldable pub refresh : String → AuthState → AuthState × Result AuthErr AuthTokens
  refresh refresh_token s = resume s (rotate (fail 0) (fail 1) ttl fresh refresh_token now s.tokens)

-- `Logout`
unfoldable pub logout : Bool → String → AuthState → AuthState × Result AuthErr (Unit {0})
logout fails refresh_token s =
    let (tokens, result) = revoke fails refresh_token s.tokens in
    (record s { tokens = tokens }, result)

-- `ChangePassword`; a user that has gone by the time of the update is no error.
unfoldable pub change_password :
    (String → String → Bool)
    → (String → Option String)
    → (ℕ → Bool)
    → ℕ
    → String
    → String
    → AuthState
    → AuthState × Result AuthErr (Unit {0})
change_password compare_hash hash_password fail user_id old_password new_password s =
    if fail 0 then (s, err db_fault) else elim (find? (live_user user_id) s.users) [
      | none ↦ (s, err invalid_credentials)
      | some u ↦
          if not (compare_hash u.password_hash old_password)
          then (s, err old_password_wrong)
          else elim (hash_password new_password) [
            | none ↦ (s, err hash_fault)
            | some hash ↦ if fail 1 then (s, err db_fault) else (
              record s {
                users = update_where (live_user user_id) (set_password hash user_id) s.users;
              },
              ok tt,
            )
          ]
    ]
