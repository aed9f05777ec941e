-- ===== src/Tests/Accounts.antt =====
-- Users and revocations at concrete inputs. Texts are numbers: 1 is admin, 2 is user.
use salesinfo_api_v.Base.{
  ℕ, subst, sym, ◌≡◌, ◌≢◌, refl, arith, ◌==◌, true, false, inr, List, [], ◌∷◌, none, some, All,
  ℕ_discrete,
}
use salesinfo_api_v.Base.Dict.{lookup, assign, delete, IsDict}
use salesinfo_api_v.Auth.Users.{
  User, RoleText, granted, last_admin, primary_role, same_text, is_admin, has_other_admin, set_role,
  check_role, update_role, update_all,
}
use salesinfo_api_v.Auth.Users.LastAdmin.{HasAdmin, update_all-HasAdmin}
use salesinfo_api_v.Auth.Users.Race.{check_role-set_role}
use salesinfo_api_v.Auth.Revocations.{
  Revocations, Event, gets, sets, sets_elsewhere, peek, fill, get_revoked_before, store,
  set_revoked_before, step, run,
}
use salesinfo_api_v.Auth.Revocations.Staleness.{Settles, IsOther, get_revoked_before-store}

abbrev roles : RoleText ℕ
roles = record { admin = 1; user = 2; is_empty = λ s. s == 0; first_part = λ s. s }

abbrev row : ℕ → ℕ → User ℕ
row name role = record { username = name; roles = role; role = 0; is_active = true }

-- What the tests compute with.
code : Unit {0}
unfolding lookup assign delete ℕ_discrete primary_role same_text has_other_admin set_role check_role
    update_role update_all peek fill get_revoked_before store set_revoked_before step run
code = tt

abbrev two_admins : List (ℕ × User ℕ)
two_admins = (7, row 70 1) ∷ (8, row 80 1) ∷ (9, row 90 2) ∷ []

two_admins-IsDict : IsDict two_admins
two_admins-IsDict = ((omega arith, (omega arith, tt)), ((omega arith, tt), (tt, tt)))

admin_7 : is_admin ℕ_discrete roles (row 70 1) ≡ true
unfolding code
admin_7 = refl

admin_8 : is_admin ℕ_discrete roles (row 80 1) ≡ true
unfolding code
admin_8 = refl

found_7 : lookup ℕ_discrete 7 two_admins ≡ some (row 70 1)
unfolding code
found_7 = refl

found_8 : lookup ℕ_discrete 8 two_admins ≡ some (row 80 1)
unfolding code
found_8 = refl

-- The first change goes through, the second one would leave no admin.
abbrev demotions : List (ℕ × ℕ)
demotions = (7, 2) ∷ (8, 2) ∷ []

second_refused :
    (update_role ℕ_discrete ℕ_discrete roles (set_role ℕ_discrete two_admins 7 2) 8 2).1
    ≡ last_admin
unfolding code
second_refused = refl

update_all-HasAdmin_example :
    HasAdmin ℕ_discrete ℕ_discrete roles
      (update_all ℕ_discrete ℕ_discrete roles two_admins demotions)
update_all-HasAdmin_example =
    update_all-HasAdmin ℕ_discrete ℕ_discrete roles refl refl two_admins demotions two_admins-IsDict
      (7, row 70 1, found_7, admin_7)

not_admin : primary_role roles (row 70 2) ≢ 1
unfolding code
not_admin = λ e. omega (arith, e)

not_admin_8 : primary_role roles (row 80 2) ≢ 1
unfolding code
not_admin_8 = λ e. omega (arith, e)

check_role-set_role_example :
    (check_role ℕ_discrete ℕ_discrete roles two_admins 7 2 ≡ granted)
    × (check_role ℕ_discrete ℕ_discrete roles two_admins 8 2 ≡ granted)
    × (lookup ℕ_discrete 7 (set_role ℕ_discrete (set_role ℕ_discrete two_admins 7 2) 8 2)
        ≡ some (row 70 2))
    × (is_admin ℕ_discrete roles (row 70 2) ≡ false)
    × (lookup ℕ_discrete 8 (set_role ℕ_discrete (set_role ℕ_discrete two_admins 7 2) 8 2)
        ≡ some (row 80 2))
    × (is_admin ℕ_discrete roles (row 80 2) ≡ false)
    × (lookup ℕ_discrete 9 (set_role ℕ_discrete (set_role ℕ_discrete two_admins 7 2) 8 2)
        ≡ lookup ℕ_discrete 9 two_admins)
check_role-set_role_example =
    check_role-set_role ℕ_discrete ℕ_discrete roles two_admins 7 8 9 (row 70 1) (row 80 1) 2
      (omega arith) (omega arith) (omega arith) found_7 found_8 admin_7 admin_8 not_admin
      not_admin_8

-- User 7 was read at time 95, and the answer is good until 105.
abbrev asked : Revocations ℕ
asked = record { table = []; cache = (7, (none, 105)) ∷ []; ttl = 10 }

-- Another user is read, and another one's tokens are revoked.
abbrev others : List (Event ℕ)
others = gets 8 101 102 ∷ sets_elsewhere 9 100 ∷ sets 8 103 104 ∷ []

others_differ : All (IsOther 7) others
others_differ = (tt, (omega arith, (omega arith, tt)))

asked_lookup : lookup ℕ_discrete 7 asked.cache ≡ some (none, 105)
unfolding code
asked_lookup = refl

settles : Settles 100 105 (lookup ℕ_discrete 7 asked.cache)
settles = subst (Settles 100 105) (sym asked_lookup) (inr (omega arith))

get_revoked_before-store_example :
    (get_revoked_before ℕ_discrete
      (run ℕ_discrete (store ℕ_discrete asked 7 100) others)
      7
      105
      106).1
    ≡ some 100
get_revoked_before-store_example =
    get_revoked_before-store ℕ_discrete asked 7 100 105 105 106 others (tt, tt) settles
      others_differ (omega arith)

-- Before that time the old answer is given.
still_old : (get_revoked_before ℕ_discrete (store ℕ_discrete asked 7 100) 7 104 104).1 ≡ none
unfolding code
still_old = refl
