-- ===== src/Auth/Middleware/Access.antt =====
-- What an identity may do: `enforce_auth` of core/auth/middleware.py together with the revocations of
-- core/auth/shared_state.py and the gate of core/services/query_service.py.
use salesinfo_api_v.Base.{
  ℕ, ◌≤◌, ◌<◌, ◌≡◌, ◌≢◌, refl, arith, ltb, Bool, true, false, ◌⊎◌, inl, inr, List, Option, none,
  some, All, Bool-cases,
}
use salesinfo_api_v.Base.Dict.{lookup, IsDict}
use salesinfo_api_v.Auth.Users.{User, RoleText, same_text}
use salesinfo_api_v.Auth.Revocations.{Revocations, Event, get_revoked_before, store, run}
use salesinfo_api_v.Auth.Revocations.Staleness.{Settles, IsOther, get_revoked_before-store}
use salesinfo_api_v.Auth.Middleware.{
  Payload, Request, Identity, unauthorized, identified, ScopeText, is_protected, owner_role,
  accepted, by_bearer, enforce_auth,
}
use salesinfo_api_v.Services.SqlPolicy.{
  Patterns, Words, Vocabulary, has_scope, authorized, IsRead, authorized_lem,
}

module _ {K S : Type 0} where
  accepted-revoked : (p : Payload K S) (at : ℕ) → p.iat < at → accepted (some p) (some at) ≡ none
  unfolding accepted
  accepted-revoked p at h = ground (arith, h)

module _ {K S : Type 0} (dec : Discrete K) (dec_text : Discrete S) (text : RoleText S)
    (scope : ScopeText S) where
  -- Once another process has revoked a user's tokens issued before `at`, every request to a protected path
  -- with such a token, and with no API key, gets 401 as soon as this process's cached answer for the
  -- user is over, whatever reads and writes for other users come in between.
  pub enforce_auth-store :
      (q : Request K S) (p : Payload K S) (r : Revocations K) (at bound now later : ℕ)
      (events : List (Event K))
      → is_protected q.path ≡ true
      → q.key ≡ none
      → q.bearer_key ≡ none
      → q.payload ≡ some p
      → p.iat < at
      → IsDict r.cache
      → Settles at bound (lookup dec p.user_id r.cache)
      → All (IsOther p.user_id) events
      → bound ≤ now
      → q.revoked_before
        ≡ (get_revoked_before dec (run dec (store dec r p.user_id at) events) p.user_id now later).1
      → enforce_auth dec_text text scope q ≡ unauthorized
  unfolding enforce_auth by_bearer
  enforce_auth-store q p r at bound now later events protected no_key no_bearer_key token old d
        settles a le e =
      let known =
        get_revoked_before-store dec r p.user_id at bound now later events d settles a le in
      let dropped : accepted q.payload q.revoked_before ≡ none =
        ground (arith, token, e, known, accepted-revoked p at old) in
      elim (Bool-cases q.has_bearer) [
        | inl bearer ↦ elim (Bool-cases q.has_services) [
          | inl services ↦
              ground (arith, protected, no_key, no_bearer_key, dropped, bearer, services)
          | inr missing ↦ ground (arith, protected, missing)
        ]
        | inr nothing ↦ ground (arith, protected, no_key, nothing)
      ]

module _ {S : Type 0} (text : RoleText S) (scope : ScopeText S) where
  owner_role-active :
      (u : User S) (active : Bool)
      → owner_role text scope (some u)
        ≡ owner_role text scope (some (record u { is_active = active }))
  unfolding owner_role
  owner_role-active u active = refl

module _ {K S : Type 0} (dec_text : Discrete S) (text : RoleText S) (scope : ScopeText S) where
  accepted_self :
      (p : Payload K S) (at : Option ℕ)
      → (accepted (some p) at ≡ some p) ⊎ (accepted (some p) at ≡ none)
  unfolding accepted
  accepted_self p none = inl refl
  accepted_self p (some at) = elim (Bool-cases (ltb p.iat at)) [
    | inl old ↦ inr (rw old refl)
    | inr young ↦ inl (rw young refl)
  ]

  -- The scopes of a request that only a token of another role than admin identifies.
  token_scopes :
      (q : Request K S) (p : Payload K S) (i : Identity K S)
      → is_protected q.path ≡ true
      → q.key ≡ none
      → q.bearer_key ≡ none
      → q.payload ≡ some p
      → p.role ≢ text.admin
      → enforce_auth dec_text text scope q ≡ identified i
      → i.scopes ≡ scope.read
  unfolding enforce_auth by_bearer same_text
  token_scopes q p i protected no_key no_bearer_key token n h =
      elim (accepted_self p q.revoked_before) [
        | inl kept ↦ ground (arith, protected, no_key, no_bearer_key, token, kept, n, h)
        | inr dropped ↦ ground (arith, protected, no_key, no_bearer_key, token, dropped, n, h)
      ]

  -- Whether the owner of an API key is active makes no difference to any request: the key of a user who
  -- was deactivated identifies the user as before.
  enforce_auth-owner :
      (q : Request K S) (u : User S) (active : Bool)
      → enforce_auth dec_text text scope (record q { owner = some u })
        ≡ enforce_auth dec_text text scope
            (record q { owner = some (record u { is_active = active }) })
  unfolding enforce_auth by_bearer
  enforce_auth-owner q u active = ground (arith, owner_role-active text scope u active)

  module _ {W : Type 0} (dec_word : Discrete W) (names : Vocabulary W) (re : Patterns S W)
      (words : Words S W) where
    -- If the text "read" does not grant the write scope, a request that only the JWT of a user with another
    -- role than admin identifies gets past the gate of `run`, where the write scope is required,
    -- with no statement but one that begins with SELECT, or with WITH and has no writing keyword.
    pub enforce_auth-authorized :
        (q : Request K S) (p : Payload K S) (i : Identity K S) (sql : S)
        → has_scope dec_word names words (some scope.read) names.write_word ≡ false
        → is_protected q.path ≡ true
        → q.key ≡ none
        → q.bearer_key ≡ none
        → q.payload ≡ some p
        → p.role ≢ text.admin
        → enforce_auth dec_text text scope q ≡ identified i
        → authorized dec_word names re words true sql (some i.scopes) ≡ true
        → IsRead dec_word names re sql
    enforce_auth-authorized q p i sql narrow protected no_key no_bearer_key token n h a =
        let same = token_scopes q p i protected no_key no_bearer_key token n h in
        elim (authorized_lem dec_word names re words sql (some i.scopes) a) [
          | inl is_read ↦ is_read
          | inr writes ↦ absurd (ground (arith, narrow, writes, same))
        ]
