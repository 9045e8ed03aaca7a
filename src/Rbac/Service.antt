-- ===== src/Rbac/Service.antt =====
-- The service of roles and permissions (backend/internal/rbac/service.go, backend/db/queries/roles.sql).
-- `fail i` says that the database fails the i-th call of an operation.
use check.Common.{
  ℕ, suc, ◌+◌, String, Bool, true, false, not, ◌&&◌, ◌||◌, Option, none, some, List, [], ◌∷◌, ◌==◌,
  ltb, str_eq, if◌then◌else◌, any, find?, keep, order_by, Table, add_row, Result, ok, err, ◌>>=◌,
  update_where, coalesce, ℤ, wrap_int32, ltb_ℤ, pos,
}
use check.Rbac.Rules.{
  RbacErr, role_not_found, user_not_found, role_code_taken, system_role, fault, Rule, Stored,
  set_roles_for_user, set_permissions_for_role, roles_for_user, permissions_for_role, remove_role,
}

-- A row of `roles`.
pub record Role : Type 0 where
  pub id : ℕ
  pub code : String
  pub name : String
  pub description : String
  pub is_system : Bool
  pub sort_order : ℤ
  pub created_by : Option ℕ
  pub updated_by : Option ℕ
  pub deleted : Bool

-- A row of `permissions`.
pub record Permission : Type 0 where
  pub id : ℕ
  pub code : String
  pub object : String
  pub action : String
  pub sort_order : ℤ

pub record Account : Type 0 where
  pub id : ℕ
  pub username : String
  pub deleted : Bool

pub record Db : Type 0 where
  pub roles : Table Role
  pub permissions : List Permission
  pub accounts : List Account
  pub rules : List Rule

pub record RoleCreate : Type 0 where
  pub code : String
  pub name : String
  pub description : Option String
  pub sort_order : Option ℤ

pub record RoleUpdate : Type 0 where
  pub name : Option String
  pub description : Option String
  pub sort_order : Option ℤ

abbrev pub live_role : ℕ → Role → Bool
live_role id r = r.id == id && not r.deleted

abbrev pub live_code : String → Role → Bool
live_code code r = str_eq r.code code && not r.deleted

abbrev pub new_role : RoleCreate → ℕ → ℕ → Role
new_role input actor id = record {
  id = id;
  code = input.code;
  name = input.name;
  description = coalesce input.description "";
  is_system = false;
  sort_order = elim input.sort_order [ none ↦ pos 0 | some n ↦ wrap_int32 n ];
  created_by = some actor;
  updated_by = none;
  deleted = false;
}

-- `CreateRole`: the code is looked for among the live roles, while the unique index holds all of them.
unfoldable pub create_role : (ℕ → Bool) → RoleCreate → ℕ → Db → Db × Result RbacErr Role
create_role fail input actor db =
    if fail 0
    then (db, err fault)
    else if any (live_code input.code) db.roles.rows
    then (db, err role_code_taken)
    else if fail 1 || any (λ (r : Role). str_eq r.code input.code) db.roles.rows
    then (db, err fault)
    else (
      record db { roles = add_row (new_role input actor) db.roles },
      ok (new_role input actor db.roles.next),
    )

abbrev pub revise_role : RoleUpdate → ℕ → Role → Role
revise_role input actor r = record r {
  name = coalesce input.name r.name;
  description = coalesce input.description r.description;
  sort_order = elim input.sort_order [ none ↦ r.sort_order | some n ↦ wrap_int32 n ];
  updated_by = some actor;
}

abbrev pub with_roles : (Role → Bool) → (Role → Role) → Db → Db
with_roles p f db = record db { roles = record db.roles { rows = update_where p f db.roles.rows } }

-- `UpdateRole`
unfoldable pub update_role : Bool → ℕ → RoleUpdate → ℕ → Db → Db × Result RbacErr Role
update_role fails id input actor db =
    if fails then (db, err fault) else elim (find? (live_role id) db.roles.rows) [
      | none ↦ (db, err role_not_found)
      | some r ↦
          (with_roles (live_role id) (revise_role input actor) db, ok (revise_role input actor r))
    ]

abbrev pub with_rules : {A : Type 0} → Db → Stored A → Db × Result RbacErr A
with_rules db (rules, r) = (record db { rules = rules }, r)

abbrev pub drop_role : Role → Role
drop_role r = record r { deleted = true }

-- `GetRole`
abbrev pub get_role : Bool → ℕ → Db → Result RbacErr Role
get_role fails id db =
    if fails
    then err fault
    else elim (find? (live_role id) db.roles.rows) [ none ↦ err role_not_found | some r ↦ ok r ]

abbrev pub delete_found : (ℕ → Bool) → Role → Db → Db × Result RbacErr (Unit {0})
delete_found fail r db =
    if r.is_system
    then (db, err system_role)
    else if fail 1
    then (db, err fault)
    else let after = with_roles (live_role r.id) drop_role db in
      with_rules after (remove_role (λ i. fail (i + 2)) r.code after.rules)

-- `DeleteRole`
unfoldable pub delete_role : (ℕ → Bool) → ℕ → Db → Db × Result RbacErr (Unit {0})
delete_role fail id db = elim (get_role (fail 0) id db) [
  | err e ↦ (db, err e)
  | ok r ↦ delete_found fail r db
]

-- `ORDER BY sort_order, id`
abbrev pub first_shown : ℤ → ℕ → ℤ → ℕ → Bool
first_shown order id order' id' = ltb_ℤ order order' || (not (ltb_ℤ order' order) && ltb id id')

abbrev pub all_permissions : Db → List Permission
all_permissions db =
    order_by (λ (a : Permission) (b : Permission). first_shown a.sort_order a.id b.sort_order b.id)
      db.permissions

abbrev pub granted : List Rule → Permission → Bool
granted rules p = any (λ (r : Rule). str_eq r.v1 p.object && str_eq r.v2 p.action) rules

-- `GetRolePermissions`: the permissions that some rule of the role names.
unfoldable pub get_role_permissions : (ℕ → Bool) → ℕ → Db → Result RbacErr (List Permission)
get_role_permissions fail id db = get_role (fail 0) id db >>= λ r.
    if fail 1
    then err fault
    else ok (keep (granted (permissions_for_role r.code db.rules)) (all_permissions db))

abbrev pub pair_of : List Permission → List (String × String)
pair_of [] = []
pair_of (p ∷ perms) = (p.object, p.action) ∷ pair_of perms

abbrev pub contains : List ℕ → ℕ → Bool
contains ids i = any (λ j. j == i) ids

abbrev pub then_read :
    {A B : Type 0} → (Db → Result RbacErr B) → Db × Result RbacErr A → Db × Result RbacErr B
then_read next (db, err e) = (db, err e)
then_read next (db, ok a) = (db, next db)

-- `SetRolePermissions`
unfoldable pub set_role_permissions :
    (ℕ → Bool) → (ℕ → Bool) → ℕ → List ℕ → Db → Db × Result RbacErr (List Permission)
set_role_permissions fail fail_rule id ids db = elim (get_role (fail 0) id db) [
  | err e ↦ (db, err e)
  | ok r ↦
      if fail 1
      then (db, err fault)
      else let perms = keep (λ (p : Permission). contains ids p.id) (all_permissions db) in
        then_read (get_role_permissions (λ i. fail (i + 2)) id)
          (with_rules db (set_permissions_for_role fail_rule r.code (pair_of perms) db.rules))
]

abbrev pub get_account : Bool → ℕ → Db → Result RbacErr Account
get_account fails id db =
    if fails
    then err fault
    else elim (find? (λ (u : Account). u.id == id && not u.deleted) db.accounts) [
      | none ↦ err user_not_found
      | some u ↦ ok u
    ]

-- The loop over the role codes: a code without a live role is skipped.
abbrev pub roles_by_code : (ℕ → Bool) → ℕ → List String → Db → Result RbacErr (List Role)
roles_by_code fail i [] db = ok []
roles_by_code fail i (code ∷ codes) db =
    let rest = roles_by_code fail (suc i) codes db in
    if fail i then err fault else elim (find? (live_code code) db.roles.rows) [
      | none ↦ rest
      | some r ↦ rest >>= λ roles. ok (r ∷ roles)
    ]

-- `GetUserRoles`
unfoldable pub get_user_roles : (ℕ → Bool) → ℕ → Db → Result RbacErr (List Role)
get_user_roles fail id db = do
  u ← get_account (fail 0) id db
  roles_by_code fail 1 (roles_for_user u.username db.rules) db

abbrev pub codes_of : List Role → List String
codes_of [] = []
codes_of (r ∷ roles) = r.code ∷ codes_of roles

-- `RolesByIDs`
abbrev pub roles_by_ids : List ℕ → Db → List Role
roles_by_ids ids db =
    order_by (λ (a : Role) (b : Role). first_shown a.sort_order a.id b.sort_order b.id)
      (keep (λ r. contains ids r.id && not r.deleted) db.roles.rows)

-- `SetUserRoles`
unfoldable pub set_user_roles :
    (ℕ → Bool) → (ℕ → Bool) → ℕ → List ℕ → Db → Db × Result RbacErr (List Role)
set_user_roles fail fail_rule id ids db = elim (get_account (fail 0) id db) [
  | err e ↦ (db, err e)
  | ok u ↦
      if fail 1
      then (db, err fault)
      else then_read (get_user_roles (λ i. fail (i + 2)) id) (
          with_rules db
            (set_roles_for_user fail_rule u.username (codes_of (roles_by_ids ids db)) db.rules))
]
