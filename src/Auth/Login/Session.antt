-- ===== src/Auth/Login/Session.antt =====
-- From a login of core/auth/authentication_service.py to a request in core/auth/middleware.py.
use salesinfo_api_v.Base.{ℕ, ◌≡◌, true, none, some}
use salesinfo_api_v.Auth.Users.{RoleText}
use salesinfo_api_v.Auth.Middleware.{Payload, Request, ScopeText, is_protected}

module _ {K S : Type 0} (dec_text : Discrete S) (text : RoleText S) (scope : ScopeText S) where
  -- A request whose only credential is the token `p`, after a revocation at the time `at`.
  pub record IsBearer (q : Request K S) (p : Payload K S) (at : ℕ) : Type 0 where
    pub protected : is_protected q.path ≡ true
    pub services : q.has_services ≡ true
    pub no_key : q.key ≡ none
    pub bearer : q.has_bearer ≡ true
    pub token : q.payload ≡ some p
    pub revoked : q.revoked_before ≡ some at
    pub no_bearer_key : q.bearer_key ≡ none
