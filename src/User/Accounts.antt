-- ===== src/User/Accounts.antt =====
-- The accounts and the operations on them (backend/internal/user/service.go, backend/db/queries/users.sql).
-- The database's `lower` and `ILIKE` and bcrypt are parameters; `fail i` says that the database fails the
-- i-th call of an operation.
use check.Common.{
  ℕ, ℤ, pos, wrap_int32, String, Bool, true, false, not, ◌&&◌, ◌||◌, Option, none, some, List, [],
  ◌∷◌, ◌==◌, str_eq, if◌then◌else◌, any, find?, keep, length, take, skip, Table, add_row, Result,
  ok, err, ◌>>=◌, update_where, coalesce, coalesce?,
}

pub data UserErr : Type 0 where
  username_taken not_found fault : UserErr

-- A row of `users`.
pub record UserRow : Type 0 where
  pub id : ℕ
  pub username : String
  pub password_hash : String
  pub display_name : String
  pub phone : Option String
  pub email : Option String
  pub avatar_media_id : Option ℕ
  pub is_active : Bool
  pub last_login_at : Option ℕ
  pub created_by : Option ℕ
  pub updated_by : Option ℕ
  pub deleted : Bool

-- `oapi.User`
pub record UserView : Type 0 where
  pub id : ℕ
  pub username : String
  pub display_name : String
  pub phone : Option String
  pub email : Option String
  pub avatar_media_id : Option ℕ
  pub is_active : Bool
  pub last_login_at : Option ℕ

abbrev pub view_of : UserRow → UserView
view_of r = record {
  id = r.id;
  username = r.username;
  display_name = r.display_name;
  phone = r.phone;
  email = r.email;
  avatar_media_id = r.avatar_media_id;
  is_active = r.is_active;
  last_login_at = r.last_login_at;
}

pub record UserCreate : Type 0 where
  pub username : String
  pub password : String
  pub display_name : Option String
  pub phone : Option String
  pub email : Option String
  pub is_active : Option Bool

pub record UserUpdate : Type 0 where
  pub display_name : Option String
  pub phone : Option String
  pub email : Option String
  pub avatar_media_id : Option ℕ
  pub is_active : Option Bool

abbrev pub Users : Type 0
Users = Table UserRow

abbrev pub with_id : ℕ → UserRow → Bool
with_id id r = r.id == id && not r.deleted

-- `Get`
unfoldable pub get : Bool → ℕ → Users → Result UserErr UserView
get fails id users =
    if fails
    then err fault
    else elim (find? (with_id id) users.rows) [ none ↦ err not_found | some r ↦ ok (view_of r) ]

-- `UPDATE users SET … WHERE id = $1 AND deleted_at IS NULL`, where no row is matched or the statement fails.
abbrev pub set_user : Bool → ℕ → (UserRow → UserRow) → Users → Users × Result UserErr (Unit {0})
set_user fails id change users =
    if fails
    then (users, err fault)
    else if any (with_id id) users.rows
    then (record users { rows = update_where (with_id id) change users.rows }, ok tt)
    else (users, err not_found)

abbrev pub revise : UserUpdate → ℕ → UserRow → UserRow
revise input actor r = record r {
  display_name = coalesce input.display_name r.display_name;
  phone = coalesce? input.phone r.phone;
  email = coalesce? input.email r.email;
  avatar_media_id = coalesce? input.avatar_media_id r.avatar_media_id;
  is_active = coalesce input.is_active r.is_active;
  updated_by = some actor;
}

abbrev pub then_get : Bool → ℕ → Users × Result UserErr (Unit {0}) → Users × Result UserErr UserView
then_get fails id (users, err e) = (users, err e)
then_get fails id (users, ok done) = (users, get fails id users)

-- `Update`
unfoldable pub update : (ℕ → Bool) → ℕ → UserUpdate → ℕ → Users → Users × Result UserErr UserView
update fail id input actor users =
    then_get (fail 1) id (set_user (fail 0) id (revise input actor) users)

abbrev pub retire : ℕ → UserRow → UserRow
retire actor r = record r { updated_by = some actor; deleted = true }

-- `Delete`
unfoldable pub delete : Bool → ℕ → ℕ → Users → Users × Result UserErr (Unit {0})
delete fails id actor = set_user fails id (retire actor)

abbrev pub rehash : String → ℕ → UserRow → UserRow
rehash hash actor r = record r { password_hash = hash; updated_by = some actor }

-- `ResetPassword`
unfoldable pub reset_password :
    (String → Option String) → Bool → ℕ → String → ℕ → Users → Users × Result UserErr (Unit {0})
reset_password bcrypt fails id password actor users = elim (bcrypt password) [
  | none ↦ (users, err fault)
  | some hash ↦ set_user fails id (rehash hash actor) users
]

abbrev pub new_user : UserCreate → String → ℕ → ℕ → UserRow
new_user input hash actor id = record {
  id = id;
  username = input.username;
  password_hash = hash;
  display_name = coalesce input.display_name "";
  phone = input.phone;
  email = input.email;
  avatar_media_id = none;
  is_active = coalesce input.is_active true;
  last_login_at = none;
  created_by = some actor;
  updated_by = none;
  deleted = false;
}

module _ (lower : String → String) where
  -- A live row with this name, without regard to case.
  abbrev pub bears : String → UserRow → Bool
  bears name r = str_eq (lower r.username) (lower name) && not r.deleted

  -- What `Create` does after its check: the hash, the insert under `uq_users_username_active`, and the read
  -- of the row.
  unfoldable pub create_checked :
      (String → Option String)
      → (ℕ → Bool)
      → UserCreate
      → ℕ
      → Users
      → Users × Result UserErr UserView
  create_checked bcrypt fail input actor users = elim (bcrypt input.password) [
    | none ↦ (users, err fault)
    | some hash ↦
        if fail 1
        then (users, err fault)
        else if any (bears input.username) users.rows
        then (users, err username_taken)
        else let after = add_row (new_user input hash actor) users in
          (after, get (fail 2) users.next after)
  ]

  -- `Create`
  unfoldable pub create :
      (String → Option String)
      → (ℕ → Bool)
      → UserCreate
      → ℕ
      → Users
      → Users × Result UserErr UserView
  create bcrypt fail input actor users =
      let rest = create_checked bcrypt fail input actor users in
      if fail 0
      then (users, err fault)
      else if any (bears input.username) users.rows
      then (users, err username_taken)
      else rest

-- `ILIKE '%' || q || '%'` on the two columns, and the filter on the activity.
abbrev pub listed : (String → String → Bool) → Option String → Option Bool → UserRow → Bool
listed like q active r =
    not r.deleted
    && elim q [ none ↦ true | some text ↦ like r.username text || like r.display_name text ]
    && elim active [ none ↦ true | some wanted ↦ if wanted then r.is_active else not r.is_active ]

abbrev pub views : List UserRow → List UserView
views [] = []
views (r ∷ rows) = view_of r ∷ views rows

-- `LIMIT` and `OFFSET` of 32 bits: a negative one is an error of the database.
abbrev pub page : ℤ → ℤ → List UserRow → Result UserErr (List UserRow)
page (pos limit) (pos offset) rows = ok (take limit (skip offset rows))
page _ _ rows = err fault

-- `List`: the rows stand in the order of their ids.
unfoldable pub list :
    (String → String → Bool)
    → (ℕ → Bool)
    → Option String
    → Option Bool
    → ℤ
    → ℤ
    → Users
    → Result UserErr (List UserView × ℕ)
list like fail q active limit offset users =
    let matching = keep (listed like q active) users.rows in
    if fail 0
    then err fault
    else page (wrap_int32 limit) (wrap_int32 offset) matching >>= λ rows.
        if fail 1 then err fault else ok (views rows, length matching)
