-- ===== src/Tests/RbacTests.antt =====
-- The theorems on roles, the gate and the limiter for one administrator.
use check.Common.{
  ℕ, ◌≤◌, ◌≡◌, refl, String, Bool, true, false, Option, none, some, List, [], ◌∷◌, pos, ok, Result,
  str_eq, arith,
}
use check.Rbac.Rules.{
  has_rule, role_rule, permission_rule, set_roles_for_user, add_rules, remove_filtered_policy,
  remove_role,
}
use check.Rbac.Service.{Role, Db, set_user_roles, get_user_roles}
use check.Rbac.Exact.{remove_role-exact}
use check.Rbac.Gate.{Claims, TokenErr, protect, authn, authz}
use check.Rbac.Access.{protect-eq-ok, set_user_roles-exact}
use check.Server.Limit.{Counters}
use check.Server.Window.{Attempt, passed, passed-le}

abbrev quiet : ℕ → Bool
quiet _ = false

abbrev inspector : Role
inspector = record {
  id = 2;
  code = "inspector";
  name = "Inspector";
  description = "";
  is_system = true;
  sort_order = pos 1;
  created_by = none;
  updated_by = none;
  deleted = false;
}

abbrev office : Db
office = record {
  roles = record { rows = inspector ∷ []; next = 3 };
  permissions = [];
  accounts = record { id = 7; username = "li"; deleted = false } ∷ [];
  rules =
      role_rule "li" "admin"
      ∷ role_rule "wu" "admin"
      ∷ permission_rule "admin" ("/api/*", "GET")
      ∷ [];
}

assigns : (set_user_roles quiet quiet 7 (2 ∷ []) office).1 ≡ ok (inspector ∷ [])
unfolding set_user_roles get_user_roles set_roles_for_user add_rules remove_filtered_policy
assigns = refl

set_user_roles-exact_example :
    has_rule (role_rule "li" "admin") (set_user_roles quiet quiet 7 (2 ∷ []) office).0.rules ≡ false
set_user_roles-exact_example =
    set_user_roles-exact quiet quiet 7 (2 ∷ []) office (inspector ∷ [])
      (record { id = 7; username = "li"; deleted = false }) (role_rule "li" "admin") refl assigns

removes : (remove_role quiet "admin" office.rules).1 ≡ ok tt
unfolding remove_role remove_filtered_policy
removes = refl

remove_role-exact_example :
    has_rule (role_rule "wu" "admin") (remove_role quiet "admin" office.rules).0 ≡ false
remove_role-exact_example =
    remove_role-exact quiet "admin" office.rules (role_rule "wu" "admin") removes

abbrev li : Claims
li = record { user_id = 7; username = "li"; roles = "admin" }

abbrev parse : String → Result TokenErr Claims
parse token = ok li

abbrev allow : String → String → String → Option Bool
allow sub path method = some true

lets_in : protect parse allow (some "t") "/api/roles" "GET" ≡ ok li
unfolding protect authn authz
lets_in = refl

protect-eq-ok_example :
    ((token : String) × (some "t" ≡ some token) × (parse token ≡ ok li))
    × (str_eq "li" "" ≡ false)
    × (allow "li" "/api/roles" "GET" ≡ some true)
protect-eq-ok_example = protect-eq-ok parse allow (some "t") "/api/roles" "GET" li lets_in

abbrev no_counters : Counters
no_counters _ = none

abbrev burst : List Attempt
burst = ("li", 10) ∷ ("wu", 11) ∷ ("li", 12) ∷ ("li", 13) ∷ []

passed-le_example : passed "li" 2 100 burst no_counters ≤ 2
passed-le_example = passed-le "li" 2 100 refl 10 burst no_counters refl (
  (omega arith, omega arith),
  ((omega arith, omega arith), ((omega arith, omega arith), ((omega arith, omega arith), tt))),
)
