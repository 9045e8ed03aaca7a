-- ===== src/Tests/AuthTests.antt =====
-- The theorems on sessions for one user.
use check.Common.{
  ℕ, ◌≡◌, refl, String, Bool, true, false, Option, none, some, List, [], ◌∷◌, ok, err, find?,
  str_eq,
}
use check.Auth.Refresh.{refresh_not_found, RefreshEntry, create_token, consume, revoke, rotate}
use check.Auth.Service.{
  User, AuthState, AuthTokens, live_user, named, access_for, open_session, login, refresh, logout,
}
use check.Auth.Sessions.{logout-ends, login-eq-ok, refresh-eq-ok}

abbrev li : User
li = record {
  id = 7;
  username = "li";
  password_hash = "#pw";
  is_active = true;
  last_login_at = none;
  updated_by = none;
  deleted = false;
}

abbrev session : RefreshEntry
session = record { token = "a"; user_id = 7; deadline = some 100 }

abbrev one_session : AuthState
one_session = record { users = li ∷ []; tokens = session ∷ [] }

abbrev no_failure : ℕ → Bool
no_failure _ = false

abbrev no_roles : String → Option (List String)
no_roles name = some []

abbrev stamp : ℕ → String → List String → ℕ → Option String
stamp id name roles now = some "jwt"

abbrev as_is : String → String
as_is name = name

abbrev accept : String → String → Bool
accept hash password = str_eq hash password

logs-out : (logout false "a" one_session).1 ≡ ok tt
unfolding logout revoke
logs-out = refl

logout-ends_example :
    (consume false "a" 20 (logout false "a" one_session).0.tokens).1 ≡ err refresh_not_found
logout-ends_example = logout-ends false "a" one_session 20 logs-out

abbrev tokens_of_login : AuthTokens
tokens_of_login = record { access_token = "jwt"; refresh_token = "b"; user = li }

logs-in :
    (login no_roles stamp no_failure 50 (some "b") 10 as_is accept "li" "#pw" one_session).1
    ≡ ok tokens_of_login
unfolding login open_session access_for create_token
logs-in = refl

login-eq-ok_example :
    (find? (named as_is "li") one_session.users ≡ some tokens_of_login.user)
    × (tokens_of_login.user.is_active ≡ true)
    × (accept tokens_of_login.user.password_hash "#pw" ≡ true)
login-eq-ok_example =
    login-eq-ok no_roles stamp no_failure 50 (some "b") 10 as_is accept "li" "#pw" one_session
      tokens_of_login logs-in

refreshes :
    (refresh no_roles stamp no_failure 50 (some "b") 10 "a" one_session).1 ≡ ok tokens_of_login
unfolding refresh rotate consume create_token access_for
refreshes = refl

refresh-eq-ok_example :
    (find? (live_user tokens_of_login.user.id) one_session.users ≡ some tokens_of_login.user)
    × (tokens_of_login.user.is_active ≡ true)
refresh-eq-ok_example =
    refresh-eq-ok no_roles stamp no_failure 50 (some "b") 10 "a" one_session tokens_of_login
      refreshes
