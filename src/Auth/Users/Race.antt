-- ===== src/Auth/Users/Race.antt =====
-- Two role changes at once: `update_role` of core/auth/authentication_service.py reads, is suspended and
-- then writes.
use salesinfo_api_v.Base.{◌≡◌, ◌≢◌, sym, ◌∙◌, arith, true, false, List, [], ◌∷◌, some}
use salesinfo_api_v.Base.Dict.{lookup}
use salesinfo_api_v.Auth.Users.{
  User, RoleText, granted, primary_role, same_text, is_admin, has_other_admin, check_role, set_role,
}
use salesinfo_api_v.Auth.Users.LastAdmin.{set_role-lookup, set_role-lookup_ne}

module _ {K S : Type 0} (dec : Discrete K) (dec_text : Discrete S) (text : RoleText S) where
  has_other_admin_found :
      (users : List (K × User S)) (user_id k : K) (u : User S)
      → k ≢ user_id
      → lookup dec k users ≡ some u
      → is_admin dec_text text u ≡ true
      → has_other_admin dec dec_text text users user_id ≡ true
  unfolding has_other_admin lookup
  has_other_admin_found [] user_id k u n e admin = absurd (ground (arith, e))
  has_other_admin_found (row ∷ users) user_id k u n e admin = elim (dec row.0 k) [
    | yes same ↦ ground (arith, e, same, n, admin)
    | no other ↦
        ground (arith, has_other_admin_found users user_id k u n (ground (arith, e, other)) admin)
  ]

  check_role_passes :
      (users : List (K × User S)) (user_id k : K) (new_role : S) (u v : User S)
      → k ≢ user_id
      → lookup dec k users ≡ some u
      → is_admin dec_text text u ≡ true
      → lookup dec user_id users ≡ some v
      → check_role dec dec_text text users user_id new_role ≡ granted
  unfolding check_role
  check_role_passes users user_id k new_role u v n e admin there =
      let other = has_other_admin_found users user_id k u n e admin in
      rw (there, check_role) (ground (arith, other))

  demoted :
      (target : User S) (new_role : S)
      → primary_role text (record target { roles = new_role }) ≢ text.admin
      → is_admin dec_text text (record target { roles = new_role }) ≡ false
  unfolding same_text
  demoted target new_role n = ground (arith, n)

  -- Two admins `a` and `b` are demoted at once: if both calls of `update_role` read the table before
  -- either writes, both are granted, also where nobody else is an admin. After both writes neither is an
  -- admin, and nobody else's row has changed.
  pub check_role-set_role :
      (users : List (K × User S)) (a b j : K) (ua ub : User S) (new_role : S)
      → a ≢ b
      → a ≢ j
      → b ≢ j
      → lookup dec a users ≡ some ua
      → lookup dec b users ≡ some ub
      → is_admin dec_text text ua ≡ true
      → is_admin dec_text text ub ≡ true
      → primary_role text (record ua { roles = new_role }) ≢ text.admin
      → primary_role text (record ub { roles = new_role }) ≢ text.admin
      → (check_role dec dec_text text users a new_role ≡ granted)
        × (check_role dec dec_text text users b new_role ≡ granted)
        × (lookup dec a (set_role dec (set_role dec users a new_role) b new_role)
            ≡ some (record ua { roles = new_role }))
        × (is_admin dec_text text (record ua { roles = new_role }) ≡ false)
        × (lookup dec b (set_role dec (set_role dec users a new_role) b new_role)
            ≡ some (record ub { roles = new_role }))
        × (is_admin dec_text text (record ub { roles = new_role }) ≡ false)
        × (lookup dec j (set_role dec (set_role dec users a new_role) b new_role)
            ≡ lookup dec j users)
  check_role-set_role users a b j ua ub new_role ab aj bj ea eb admin_a admin_b na nb =
      let once = set_role dec users a new_role in
      (
        check_role_passes users a b new_role ub ua (λ q. ab (sym q)) eb admin_b ea,
        check_role_passes users b a new_role ua ub ab ea admin_a eb,
        set_role-lookup_ne dec once b a new_role (λ q. ab (sym q))
            ∙ set_role-lookup dec users a new_role ua ea,
        demoted ua new_role na,
        set_role-lookup dec once b new_role ub (set_role-lookup_ne dec users a b new_role ab ∙ eb),
        demoted ub new_role nb,
        set_role-lookup_ne dec once b j new_role bj ∙ set_role-lookup_ne dec users a j new_role aj,
      )
