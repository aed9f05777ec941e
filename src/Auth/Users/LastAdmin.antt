-- ===== src/Auth/Users/LastAdmin.antt =====
-- Some user stays an admin: `update_role` of core/auth/authentication_service.py.
use salesinfo_api_v.Base.{
  ◌≡◌, ◌≢◌, refl, sym, ap, ◌∙◌, arith, true, false, List, [], ◌∷◌, none, some, ◌⊎◌, inl, inr,
  Bool-cases, Option-cases,
}
use salesinfo_api_v.Base.Dict.{
  lookup, Absent, IsDict, lookup-assign, assign-IsDict, lookup_of_Absent,
}
use salesinfo_api_v.Auth.Users.{
  User, RoleText, Verdict, granted, not_found, last_admin, primary_role, same_text, is_admin,
  has_other_admin, check_role, set_role, update_role, update_all,
}

module _ {K S : Type 0} (dec : Discrete K) where
  pub set_role-lookup :
      (users : List (K × User S)) (user_id : K) (new_role : S) (target : User S)
      → lookup dec user_id users ≡ some target
      → lookup dec user_id (set_role dec users user_id new_role)
        ≡ some (record target { roles = new_role })
  unfolding set_role
  set_role-lookup users user_id new_role target there =
      rw (there, set_role)
        (ground
          (arith, lookup-assign dec user_id user_id (record target { roles = new_role }) users))

  pub set_role-lookup_ne :
      (users : List (K × User S)) (user_id k : K) (new_role : S)
      → user_id ≢ k
      → lookup dec k (set_role dec users user_id new_role) ≡ lookup dec k users
  unfolding set_role
  set_role-lookup_ne users user_id k new_role n = elim (Option-cases (lookup dec user_id users)) [
    | inl absent ↦ rw (absent, set_role) refl
    | inr (target, there) ↦
        rw (there, set_role)
          (ground
            (arith, n, lookup-assign dec user_id k (record target { roles = new_role }) users))
  ]

  set_role-IsDict :
      (users : List (K × User S)) (user_id : K) (new_role : S)
      → IsDict users
      → IsDict (set_role dec users user_id new_role)
  unfolding set_role
  set_role-IsDict users user_id new_role d = elim (Option-cases (lookup dec user_id users)) [
    | inl absent ↦ rw (absent, set_role) d
    | inr (target, there) ↦
        rw (there, set_role)
          (assign-IsDict dec user_id (record target { roles = new_role }) users d)
  ]

module _ {K S : Type 0} (dec : Discrete K) (dec_text : Discrete S) (text : RoleText S) where
  -- Some user's primary role is the admin role.
  abbrev pub HasAdmin : List (K × User S) → Type 0
  HasAdmin users =
      (k : K) × (u : User S) × (lookup dec k users ≡ some u) × (is_admin dec_text text u ≡ true)

  abbrev Other : List (K × User S) → K → Type 0
  Other users user_id =
      (k : K) × (u : User S) × (k ≢ user_id)
      × (lookup dec k users ≡ some u)
      × (is_admin dec_text text u ≡ true)

  lookup_other :
      (k : K) (row : K × User S) (users : List (K × User S)) (u : User S)
      → Absent row.0 users
      → lookup dec k users ≡ some u
      → lookup dec k (row ∷ users) ≡ some u
  unfolding lookup
  lookup_other k row users u new e = elim (dec row.0 k) [
    | yes same ↦
        let gone : lookup dec row.0 users ≡ none = lookup_of_Absent dec row.0 users new in
        absurd (ground (arith, gone, e, ap (λ x. lookup dec x users) same))
    | no other ↦ ground (arith, e, other)
  ]

  -- The search finds an admin with another id.
  has_other_admin-lookup :
      (users : List (K × User S)) (user_id : K)
      → IsDict users
      → has_other_admin dec dec_text text users user_id ≡ true
      → Other users user_id
  unfolding has_other_admin lookup
  has_other_admin-lookup [] user_id d h = absurd (ground (arith, h))
  has_other_admin-lookup (row ∷ users) user_id d h =
      let later : has_other_admin dec dec_text text users user_id ≡ true
          → Other (row ∷ users) user_id =
        λ e.
          let (k, u, other, there, admin) = has_other_admin-lookup users user_id d.1 e in
          (k, u, other, lookup_other k row users u d.0 there, admin) in
      elim (dec row.0 user_id) [
        | yes same ↦ later (ground (arith, h, same))
        | no other ↦ elim (Bool-cases (is_admin dec_text text row.1)) [
          | inl admin ↦ (row.0, row.1, other, ground arith, admin)
          | inr plain ↦ later (ground (arith, h, other, plain))
        ]
      ]

  -- Where the check grants a change, an admin with another id remains, or the user is made an admin, or
  -- was none.
  abbrev Allowed : List (K × User S) → K → S → User S → Type 0
  Allowed users user_id new_role target =
      Other users user_id ⊎ (new_role ≡ text.admin) ⊎ (is_admin dec_text text target ≡ false)

  check_role-granted :
      (users : List (K × User S)) (user_id : K) (new_role : S) (target : User S)
      → IsDict users
      → lookup dec user_id users ≡ some target
      → check_role dec dec_text text users user_id new_role ≡ granted
      → Allowed users user_id new_role target
  unfolding check_role same_text
  check_role-granted users user_id new_role target d there h =
      elim (Bool-cases (is_admin dec_text text target)) [
        | inr plain ↦ inr (inr plain)
        | inl admin ↦ elim (dec_text new_role text.admin) [
          | yes same ↦ inr (inl same)
          | no demoted ↦ inl (
              has_other_admin-lookup users user_id d
                (ground (arith, rw (there, check_role) at h, admin, demoted)))
        ]
      ]

  missing :
      (users : List (K × User S)) (user_id : K) (new_role : S)
      → lookup dec user_id users ≡ none
      → check_role dec dec_text text users user_id new_role ≢ granted
  unfolding check_role
  missing users user_id new_role absent h = ground (arith, rw (absent, check_role) at h)

  made_admin :
      (target : User S)
      → text.is_empty text.admin ≡ false
      → text.first_part text.admin ≡ text.admin
      → is_admin dec_text text (record target { roles = text.admin }) ≡ true
  unfolding primary_role same_text
  made_admin target e f = ground (arith, e, f)

  -- An admin other than the user keeps the row.
  kept_other :
      (users : List (K × User S)) (user_id k : K) (u : User S) (new_role : S)
      → k ≢ user_id
      → lookup dec k users ≡ some u
      → is_admin dec_text text u ≡ true
      → HasAdmin (set_role dec users user_id new_role)
  kept_other users user_id k u new_role n there admin =
      (k, u, set_role-lookup_ne dec users user_id k new_role (λ q. n (sym q)) ∙ there, admin)

  module _ (filled : text.is_empty text.admin ≡ false)
      (whole : text.first_part text.admin ≡ text.admin) where
    set_role-HasAdmin :
        (users : List (K × User S)) (user_id : K) (new_role : S) (target : User S)
        → lookup dec user_id users ≡ some target
        → Allowed users user_id new_role target
        → HasAdmin users
        → HasAdmin (set_role dec users user_id new_role)
    set_role-HasAdmin users user_id new_role target there (inl (k, u, n, e, admin)) h =
        kept_other users user_id k u new_role n e admin
    set_role-HasAdmin users user_id new_role target there (inr (inl same)) h = (
      user_id,
      record target { roles = new_role },
      set_role-lookup dec users user_id new_role target there,
      rw same (made_admin target filled whole),
    )
    set_role-HasAdmin users user_id new_role target there (inr (inr plain)) (k, u, e, admin) =
        elim (dec k user_id) [
          | yes same ↦
              let both : u ≡ target = ground (arith, e, there, ap (λ x. lookup dec x users) same) in
              absurd (ground (arith, admin, plain, ap (is_admin dec_text text) both))
          | no other ↦ kept_other users user_id k u new_role other e admin
        ]

    update_role-HasAdmin :
        (users : List (K × User S)) (user_id : K) (new_role : S) (v : Verdict)
        → check_role dec dec_text text users user_id new_role ≡ v
        → IsDict users
        → HasAdmin users
        → IsDict (update_role dec dec_text text users user_id new_role).0
          × HasAdmin (update_role dec dec_text text users user_id new_role).0
    unfolding update_role
    update_role-HasAdmin users user_id new_role not_found e d h = rw (e, update_role) (d, h)
    update_role-HasAdmin users user_id new_role last_admin e d h = rw (e, update_role) (d, h)
    update_role-HasAdmin users user_id new_role granted e d h =
        elim (Option-cases (lookup dec user_id users)) [
          | inl absent ↦ absurd (missing users user_id new_role absent e)
          | inr (target, there) ↦
              rw (e, update_role)
                (
                  set_role-IsDict dec users user_id new_role d,
                  set_role-HasAdmin users user_id new_role target there
                      (check_role-granted users user_id new_role target d there e) h,
                )
        ]

    -- If some user is an admin and no id stands twice, some user is an admin after any sequence of role
    -- changes, one after another, each granted or refused by its check, provided that the text
    -- "admin" is not empty and is its own first part.
    pub update_all-HasAdmin :
        (users : List (K × User S)) (changes : List (K × S))
        → IsDict users
        → HasAdmin users
        → HasAdmin (update_all dec dec_text text users changes)
    unfolding update_all
    update_all-HasAdmin users [] d h = h
    update_all-HasAdmin users ((user_id, new_role) ∷ changes) d h =
        let (d2, h2) = update_role-HasAdmin users user_id new_role _ refl d h in
        update_all-HasAdmin (update_role dec dec_text text users user_id new_role).0 changes d2 h2
