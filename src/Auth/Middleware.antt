-- ===== src/Auth/Middleware.antt =====
-- `enforce_auth` of core/auth/middleware.py: who a request is, by its API key, its JWT, or an API key given
-- as bearer token. What the services answer is part of the request record: the validation of the keys,
-- the decoded and verified JWT, the revocation of its user, and the owner's row in the user cache.
pub mod Access
use salesinfo_api_v.Base.{
  ℕ, ltb, Bool, true, false, not, ◌&&◌, ◌||◌, if◌then◌else◌, Option, none, some,
}
use salesinfo_api_v.Auth.Users.{User, RoleText, same_text}

-- What `validate_api_key` returns of a key.
pub record KeyData (K S : Type 0) : Type 0 where
  pub owner_id : K
  pub scopes : S

-- The claims of a JWT.
pub record Payload (K S : Type 0) : Type 0 where
  pub user_id : K
  pub role : S
  pub iat : ℕ

-- `request.url.path`, by the tests made on it.
pub record UrlPath : Type 0 where
  pub starts_api : Bool
  pub starts_debug : Bool
  pub starts_docs : Bool
  pub is_public : Bool

pub record Request (K S : Type 0) : Type 0 where
  pub path : UrlPath
  pub has_services : Bool
  pub key : Option (KeyData K S)
  pub has_bearer : Bool
  pub payload : Option (Payload K S)
  pub revoked_before : Option ℕ
  pub bearer_key : Option (KeyData K S)
  pub owner : Option (User S)

-- `request.state`, as far as access depends on it.
pub record Identity (K S : Type 0) : Type 0 where
  pub user_id : K
  pub role : S
  pub scopes : S

pub data Outcome (K S : Type 0) : Type 0 where
  open_path unauthorized : Outcome K S
  identified : Identity K S → Outcome K S

-- The texts "", "read" and "read,write".
pub record ScopeText (S : Type 0) : Type 0 where
  pub empty_text : S
  pub read : S
  pub read_write : S

abbrev pub is_protected : UrlPath → Bool
is_protected path =
    (path.starts_api || path.starts_debug) && not path.starts_docs && not path.is_public

module _ {S : Type 0} (text : RoleText S) (scope : ScopeText S) where
  -- The first of the roles of the owner, "" if there is no owner or no role.
  unfoldable pub owner_role : Option (User S) → S
  owner_role none = scope.empty_text
  owner_role (some u) =
      let roles_val = if text.is_empty u.roles then u.role else u.roles in
      if text.is_empty roles_val then scope.empty_text else text.first_part roles_val

module _ {K S : Type 0} where
  -- `issued_at < revoked_before` drops the payload.
  unfoldable pub accepted : Option (Payload K S) → Option ℕ → Option (Payload K S)
  accepted none revoked_before = none
  accepted (some p) none = some p
  accepted (some p) (some at) = if ltb p.iat at then none else some p

module _ {K S : Type 0} (dec_text : Discrete S) (text : RoleText S) (scope : ScopeText S) where
  abbrev pub by_key : KeyData K S → Option (User S) → Identity K S
  by_key k owner = record {
    user_id = k.owner_id;
    role = owner_role text scope owner;
    scopes = k.scopes;
  }

  abbrev pub by_token : Payload K S → Identity K S
  by_token p = record {
    user_id = p.user_id;
    role = p.role;
    scopes = if same_text dec_text p.role text.admin then scope.read_write else scope.read;
  }

  abbrev pub by_bearer_key : Option (KeyData K S) → Option (User S) → Outcome K S
  by_bearer_key none owner = unauthorized
  by_bearer_key (some k) owner = identified (by_key k owner)

  -- The second way, for a request without a valid x-api-key.
  unfoldable pub by_bearer : Request K S → Outcome K S
  by_bearer q =
      if q.has_bearer
      then elim (accepted q.payload q.revoked_before) [
        | some p ↦ identified (by_token p)
        | none ↦ by_bearer_key q.bearer_key q.owner
      ]
      else unauthorized

  unfoldable pub enforce_auth : Request K S → Outcome K S
  enforce_auth q =
      if is_protected q.path
      then (if q.has_services
          then elim q.key [ some k ↦ identified (by_key k q.owner) | none ↦ by_bearer q ]
          else unauthorized)
      else open_path
