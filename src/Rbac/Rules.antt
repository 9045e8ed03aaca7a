-- ===== src/Rbac/Rules.antt =====
-- The table `casbin_rule`, the adapter of backend/internal/rbac/adapter.go and the enforcer of
-- backend/internal/rbac/enforcer.go on it. The copy of the table that the policy engine keeps in memory is
-- taken to agree with the table, so that a call of the engine is the adapter's call that it makes.
use check.Common.{
  ℕ, suc, zero, String, Bool, true, false, not, ◌&&◌, List, [], ◌∷◌, str_eq, if◌then◌else◌, any,
  keep, Result, ok, err, insert_row,
}

pub data RbacErr : Type 0 where
  role_not_found user_not_found role_code_taken system_role : RbacErr
  fault : RbacErr

-- A row of `casbin_rule`; a value that a rule does not have is empty.
pub record Rule : Type 0 where
  pub ptype : String
  pub v0 : String
  pub v1 : String
  pub v2 : String
  pub v3 : String
  pub v4 : String
  pub v5 : String

-- The values of a rule as the policy engine passes them, and the i-th of them.
abbrev pub value_at : ℕ → List String → String
value_at i [] = ""
value_at zero (v ∷ values) = v
value_at (suc i) (v ∷ values) = value_at i values

-- `pad6`
abbrev pub pad6 : String → List String → Rule
pad6 ptype values = record {
  ptype = ptype;
  v0 = value_at 0 values;
  v1 = value_at 1 values;
  v2 = value_at 2 values;
  v3 = value_at 3 values;
  v4 = value_at 4 values;
  v5 = value_at 5 values;
}

abbrev pub same_rule : Rule → Rule → Bool
same_rule a b =
    str_eq a.ptype b.ptype
    && str_eq a.v0 b.v0
    && str_eq a.v1 b.v1
    && str_eq a.v2 b.v2
    && str_eq a.v3 b.v3
    && str_eq a.v4 b.v4
    && str_eq a.v5 b.v5

abbrev pub has_rule : Rule → List Rule → Bool
has_rule r = any (same_rule r)

abbrev pub Stored : Type 0 → Type 0
Stored A = List Rule × Result RbacErr A

-- `insertRule`: `ON CONFLICT (ptype, v0, …, v5) DO NOTHING`.
abbrev pub insert_rule : Bool → Rule → List Rule → Stored (Unit {0})
insert_rule fails r rules =
    if fails
    then (rules, err fault)
    else (if has_rule r rules then rules else insert_row r rules, ok tt)

-- `RemovePolicy`
abbrev pub remove_policy : Bool → Rule → List Rule → Stored (Unit {0})
remove_policy fails r rules =
    if fails then (rules, err fault) else (keep (λ s. not (same_rule r s)) rules, ok tt)

abbrev pub column : ℕ → Rule → String
column zero r = r.v0
column (suc zero) r = r.v1
column (suc (suc zero)) r = r.v2
column (suc (suc (suc zero))) r = r.v3
column (suc (suc (suc (suc zero)))) r = r.v4
column _ r = r.v5

-- The conditions of `RemoveFilteredPolicy`: an empty value is no condition.
abbrev pub agrees : ℕ → List String → Rule → Bool
agrees i [] r = true
agrees i (v ∷ values) r =
    let rest = agrees (suc i) values r in
    if str_eq v "" then rest else str_eq (column i r) v && rest

-- `RemoveFilteredPolicy`, for values within the six columns.
unfoldable pub remove_filtered_policy :
    Bool → String → ℕ → List String → List Rule → Stored (Unit {0})
remove_filtered_policy fails ptype index values rules =
    if fails
    then (rules, err fault)
    else (keep (λ r. not (str_eq r.ptype ptype && agrees index values r)) rules, ok tt)

-- A rule as `LoadPolicy` reads it: its values up to the first empty one.
abbrev pub upto_empty : List String → List String
upto_empty [] = []
upto_empty (v ∷ values) = let rest = upto_empty values in if str_eq v "" then [] else v ∷ rest

abbrev pub load_rule : Rule → String × List String
load_rule r = (r.ptype, upto_empty (r.v0 ∷ r.v1 ∷ r.v2 ∷ r.v3 ∷ r.v4 ∷ r.v5 ∷ []))

-- The loop that adds rules until one cannot be added; `fail i` says that the i-th cannot.
unfoldable pub add_rules : (ℕ → Bool) → ℕ → List Rule → List Rule → Stored (Unit {0})
add_rules fail i [] rules = (rules, ok tt)
add_rules fail i (r ∷ new) rules =
    let rest = add_rules fail (suc i) new (insert_rule (fail i) r rules).0 in
    if fail i then (rules, err fault) else rest

-- The rules of one type whose first value is `key` are cleared, and the given ones are added.
abbrev pub replace_rules : (ℕ → Bool) → String → String → List Rule → List Rule → Stored (Unit {0})
replace_rules fail ptype key new rules =
    let cleared = (remove_filtered_policy false ptype 0 (key ∷ []) rules).0 in
    if fail 0 then (rules, err fault) else add_rules fail 1 new cleared

abbrev pub role_rule : String → String → Rule
role_rule username role = pad6 "g" (username ∷ role ∷ [])

abbrev pub permission_rule : String → String × String → Rule
permission_rule role (object, action) = pad6 "p" (role ∷ object ∷ action ∷ [])

abbrev pub each {ℓ} : {A : Type ℓ} → (A → Rule) → List A → List Rule
each rule [] = []
each rule (a ∷ rest) = rule a ∷ each rule rest

-- `SetRolesForUser`
unfoldable pub set_roles_for_user :
    (ℕ → Bool) → String → List String → List Rule → Stored (Unit {0})
set_roles_for_user fail username codes =
    replace_rules fail "g" username (each (role_rule username) codes)

-- `SetPermissionsForRole`
unfoldable pub set_permissions_for_role :
    (ℕ → Bool) → String → List (String × String) → List Rule → Stored (Unit {0})
set_permissions_for_role fail role pairs =
    replace_rules fail "p" role (each (permission_rule role) pairs)

-- `RolesForUser`
abbrev pub roles_for_user : String → List Rule → List String
roles_for_user username [] = []
roles_for_user username (r ∷ rules) =
    let rest = roles_for_user username rules in
    if str_eq r.ptype "g" && str_eq r.v0 username then r.v1 ∷ rest else rest

-- `PermissionsForRole`
abbrev pub permissions_for_role : String → List Rule → List Rule
permissions_for_role role = keep (λ r. str_eq r.ptype "p" && str_eq r.v0 role)

-- `RemoveRole`: its permissions first, then its bindings to users.
unfoldable pub remove_role : (ℕ → Bool) → String → List Rule → Stored (Unit {0})
remove_role fail role rules =
    let unpermitted = (remove_filtered_policy false "p" 0 (role ∷ []) rules).0 in
    if fail 0
    then (rules, err fault)
    else remove_filtered_policy (fail 1) "g" 1 (role ∷ []) unpermitted
