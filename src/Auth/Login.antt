-- ===== src/Auth/Login.antt =====
-- `authenticate` of core/auth/authentication_service.py: the password check and the claims of the JWT that it
-- issues. The column `password_hash` is a function of the user id, `verify` is `verify_password`, and the
-- clock counts units of which `second` make a second. Signing, `last_login` and the audit log are left out.
pub mod Session
use salesinfo_api_v.Base.{
  ℕ, ◌*◌, ◌/◌, Bool, true, false, if◌then◌else◌, List, [], ◌∷◌, Option, none, some,
}
use salesinfo_api_v.Auth.Users.{User, RoleText, primary_role, same_text}
use salesinfo_api_v.Auth.Middleware.{Payload}

pub data LoginResult (K S : Type 0) : Type 0 where
  invalid_credentials account_disabled : LoginResult K S
  authenticated : Payload K S → LoginResult K S

-- `int(time.time())`, in the units of the clock.
abbrev pub whole_seconds : ℕ → ℕ → ℕ
whole_seconds second now = now / second * second

module _ {K S : Type 0} (dec_text : Discrete S) where
  -- `get_by_username`.
  unfoldable pub get_by_username : S → List (K × User S) → Option (K × User S)
  get_by_username username [] = none
  get_by_username username (row ∷ users) =
      let rest = get_by_username username users in
      if same_text dec_text row.1.username username then some row else rest

-- A password is verified for an unknown name too.
abbrev pub stored_hash : {K S H : Type 0} → H → (K → H) → Option (K × User S) → H
stored_hash dummy_password_hash password_hash none = dummy_password_hash
stored_hash dummy_password_hash password_hash (some row) = password_hash row.0

module _ {K S : Type 0} (text : RoleText S) (second : ℕ) where
  abbrev pub claims : K × User S → ℕ → Payload K S
  claims row now = record {
    user_id = row.0;
    role = primary_role text row.1;
    iat = whole_seconds second now;
  }

  abbrev pub issue : K × User S → ℕ → LoginResult K S
  issue row now = if row.1.is_active then authenticated (claims row now) else account_disabled

module _ {K S H : Type 0} (dec_text : Discrete S) (text : RoleText S) (verify : S → H → Bool)
    (dummy_password_hash : H) (second : ℕ) where
  unfoldable pub authenticate : List (K × User S) → (K → H) → S → S → ℕ → LoginResult K S
  authenticate users password_hash username password now =
      let user = get_by_username dec_text username users in
      let password_ok = verify password (stored_hash dummy_password_hash password_hash user) in
      elim user [
        | none ↦ invalid_credentials
        | some row ↦ if password_ok then issue text second row now else invalid_credentials
      ]
