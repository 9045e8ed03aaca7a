-- ===== src/Auth/Refresh.antt =====
-- The refresh tokens of backend/internal/auth/refresh.go. Redis is a list of entries; an entry that
-- has reached its deadline, if it has one, is as good as absent. `fails` says that Redis fails the call, and a new
-- token of `randomToken` is an input, none where the random source fails.
use check.Common.{
  ℕ, ◌+◌, String, Bool, not, ◌&&◌, Option, none, some, List, ◌∷◌, str_eq, ◌==◌, true, ltb,
  if◌then◌else◌, find?, keep, Result, ok, err,
}

pub data AuthErr : Type 0 where
  refresh_not_found invalid_credentials old_password_wrong : AuthErr
  redis_fault db_fault enforcer_fault jwt_fault hash_fault random_fault : AuthErr

pub record RefreshEntry : Type 0 where
  pub token : String
  pub user_id : ℕ
  pub deadline : Option ℕ

abbrev pub has_token : String → RefreshEntry → Bool
has_token token e = str_eq e.token token

-- `SET` with an expiration of 0 stores a key that does not expire.
abbrev pub deadline_after : ℕ → ℕ → Option ℕ
deadline_after ttl now = if ttl == 0 then none else some (now + ttl)

abbrev pub before_deadline : ℕ → Option ℕ → Bool
before_deadline now none = true
before_deadline now (some deadline) = ltb now deadline

abbrev pub held : String → ℕ → RefreshEntry → Bool
held token now e = str_eq e.token token && before_deadline now e.deadline

-- `DEL`
abbrev pub drop_token : String → List RefreshEntry → List RefreshEntry
drop_token token = keep (λ e. not (has_token token e))

-- `Create`: `SET` replaces an entry of the key.
unfoldable pub create_token :
    Bool → ℕ → Option String → ℕ → ℕ → List RefreshEntry → List RefreshEntry × Result AuthErr String
create_token fails ttl none user_id now entries = (entries, err random_fault)
create_token fails ttl (some token) user_id now entries =
    if fails then (entries, err redis_fault) else (
      record { token = token; user_id = user_id; deadline = deadline_after ttl now }
          ∷ drop_token token entries,
      ok token,
    )

-- `consume`: `GETDEL`
unfoldable pub consume :
    Bool → String → ℕ → List RefreshEntry → List RefreshEntry × Result AuthErr ℕ
consume fails token now entries =
    if str_eq token ""
    then (entries, err refresh_not_found)
    else if fails
    then (entries, err redis_fault)
    else elim (find? (held token now) entries) [
      | none ↦ (entries, err refresh_not_found)
      | some e ↦ (drop_token token entries, ok e.user_id)
    ]

-- `Revoke`
unfoldable pub revoke :
    Bool → String → List RefreshEntry → List RefreshEntry × Result AuthErr (Unit {0})
revoke fails token entries =
    if str_eq token ""
    then (entries, ok tt)
    else if fails
    then (entries, err redis_fault)
    else (drop_token token entries, ok tt)

abbrev pub reissue :
    Bool
    → ℕ
    → Option String
    → ℕ
    → List RefreshEntry × Result AuthErr ℕ
    → List RefreshEntry × Result AuthErr (String × ℕ)
reissue fails ttl fresh now (entries, err e) = (entries, err e)
reissue fails ttl fresh now (entries, ok uid) =
    let (entries', created) = create_token fails ttl fresh uid now entries in
    elim created [ err e ↦ (entries', err e) | ok token ↦ (entries', ok (token, uid)) ]

-- `Rotate`
unfoldable pub rotate :
    Bool
    → Bool
    → ℕ
    → Option String
    → String
    → ℕ
    → List RefreshEntry
    → List RefreshEntry × Result AuthErr (String × ℕ)
rotate consume_fails create_fails ttl fresh old_token now entries =
    reissue create_fails ttl fresh now (consume consume_fails old_token now entries)
