-- ===== src/Tests/UserTests.antt =====
-- The theorem on names for two creations that overlap.
use check.Common.{
  ℕ, String, Bool, false, Option, none, some, List, [], ◌∷◌, Distinct, ◌≡◌, refl, err,
}
use check.User.Accounts.{username_taken, UserCreate, Users, create, create_checked}
use check.User.Names.{Call, creates, finishes, deletes, same_name, run, run-Distinct}

abbrev quiet : ℕ → Bool
quiet _ = false

abbrev hash : String → Option String
hash password = some "#"

abbrev as_is : String → String
as_is name = name

abbrev li : UserCreate
li = record {
  username = "li";
  password = "pw";
  display_name = none;
  phone = none;
  email = none;
  is_active = none;
}

abbrev no_users : Users
no_users = record { rows = []; next = 1 }

abbrev overlap : List Call
overlap =
    creates hash quiet li 1
    ∷ finishes hash quiet li 1
    ∷ deletes false 1 9
    ∷ creates hash quiet li 1
    ∷ []

second_refused :
    (create_checked as_is hash quiet li 1 (create as_is hash quiet li 1 no_users).0).1
    ≡ err username_taken
unfolding create create_checked
second_refused = refl

run-Distinct_example : Distinct (same_name as_is) (run as_is overlap no_users).rows
run-Distinct_example = run-Distinct as_is overlap no_users tt
