-- ===== src/Auth/Users.antt =====
-- core/auth/authentication_service.py over the `users` table of core/auth/user_repository.py: the roles
-- of users and how they change. The table is a dictionary over the user ids, newest row last; texts
-- are values of a type `S`, and what their methods give is the parameter `RoleText`.
pub mod LastAdmin
pub mod Race
use salesinfo_api_v.Base.{
  Bool, true, false, not, ◌&&◌, if◌then◌else◌, List, [], ◌∷◌, Option, none, some, ite,
}
use salesinfo_api_v.Base.Dict.{lookup, assign}

-- A row; a text that is NULL or missing is an empty one, which counts as false.
pub record User (S : Type 0) : Type 0 where
  pub username : S
  pub roles : S
  pub role : S
  pub is_active : Bool

-- The texts "admin" and "user", `bool(text)`, and `text.split(",")[0]`.
pub record RoleText (S : Type 0) : Type 0 where
  pub admin : S
  pub user : S
  pub is_empty : S → Bool
  pub first_part : S → S

-- How `update_role` ends, before its bookkeeping.
pub data Verdict : Type 0 where
  granted not_found last_admin : Verdict

module _ {S : Type 0} (text : RoleText S) where
  unfoldable pub primary_role : User S → S
  primary_role u =
      let roles_val = if text.is_empty u.roles then u.role else u.roles in
      if text.is_empty roles_val then text.user else text.first_part roles_val

module _ {S : Type 0} (dec_text : Discrete S) where
  unfoldable pub same_text : S → S → Bool
  same_text a b = ite (dec_text a b) true false

module _ {S : Type 0} (dec_text : Discrete S) (text : RoleText S) where
  abbrev pub is_admin : User S → Bool
  is_admin u = same_text dec_text (primary_role text u) text.admin

module _ {K S : Type 0} (dec : Discrete K) where
  -- `UserRepository.update_role`: the column `roles` of the row, if there is one.
  unfoldable pub set_role : List (K × User S) → K → S → List (K × User S)
  set_role users user_id new_role = elim (lookup dec user_id users) [
    | none ↦ users
    | some target ↦ assign dec user_id (record target { roles = new_role }) users
  ]

module _ {K S : Type 0} (dec : Discrete K) (dec_text : Discrete S) (text : RoleText S) where
  -- Whether `remaining_admins` is not empty.
  unfoldable pub has_other_admin : List (K × User S) → K → Bool
  has_other_admin [] user_id = false
  has_other_admin (row ∷ users) user_id =
      let rest = has_other_admin users user_id in
      if ite (dec row.0 user_id) false (is_admin dec_text text row.1) then true else rest

  -- The part of `update_role` that reads: whether the change may be made.
  unfoldable pub check_role : List (K × User S) → K → S → Verdict
  check_role users user_id new_role = elim (lookup dec user_id users) [
    | none ↦ not_found
    | some target ↦
        if is_admin dec_text text target && not (same_text dec_text new_role text.admin)
        then (if has_other_admin users user_id then granted else last_admin)
        else granted
  ]

  -- `update_role` as far as the table is concerned.
  unfoldable pub update_role : List (K × User S) → K → S → List (K × User S) × Verdict
  update_role users user_id new_role = elim (check_role users user_id new_role) [
    | granted ↦ (set_role dec users user_id new_role, granted)
    | not_found ↦ (users, not_found)
    | last_admin ↦ (users, last_admin)
  ]

  -- Role changes one after another.
  unfoldable pub update_all : List (K × User S) → List (K × S) → List (K × User S)
  update_all users [] = users
  update_all users ((user_id, new_role) ∷ changes) =
      update_all (update_role users user_id new_role).0 changes
