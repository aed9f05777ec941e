-- ===== src/Tests/Keys.antt =====
-- API keys at concrete inputs. Hashes and texts are numbers.
use salesinfo_api_v.Base.{
  ℕ, ◌≡◌, refl, arith, Bool, true, inl, inr, [], ◌∷◌, none, some, All, ℕ_discrete,
}
use salesinfo_api_v.Base.Dict.{lookup, assign, delete}
use salesinfo_api_v.Auth.ApiKeys.{
  KeyRow, KeyStore, same, find_active, validate, validate_api_key, validate_all, deactivate, evict,
  revoke_api_key, has_key, create, remove, delete_api_key,
}
use salesinfo_api_v.Auth.ApiKeys.Revoked.{IsOtherKey, validate_all-revoke}

-- What the tests compute with.
code : Unit {0}
unfolding lookup assign delete ℕ_discrete same find_active validate validate_api_key validate_all
    salesinfo_api_v.Auth.ApiKeys.peek deactivate evict revoke_api_key remove delete_api_key has_key
    create
code = tt

abbrev key_row : ℕ → ℕ → ℕ → Bool → KeyRow ℕ ℕ ℕ
key_row id hash owner_id is_active = record {
  key_id = id;
  api_key_hash = hash;
  owner_id = owner_id;
  created_at = 0;
  expires_at = none;
  scopes = 10;
  is_active = is_active;
}

-- Two keys, the first of which was validated a moment ago.
abbrev keys : KeyStore ℕ ℕ ℕ
keys = record {
  rows = key_row 1 21 7 true ∷ key_row 2 22 8 true ∷ [];
  cache = (21, (key_row 1 21 7 true, 130)) ∷ [];
  ttl = 30;
}

validate_all-revoke_example : All (IsOtherKey ℕ_discrete ℕ_discrete 1) (
    validate_all ℕ_discrete
      (revoke_api_key ℕ_discrete keys 1 7).0
      ((21, 101, 1000) ∷ (22, 102, 1001) ∷ []))
validate_all-revoke_example =
    validate_all-revoke ℕ_discrete ℕ_discrete 1 keys 7 ((21, 101, 1000) ∷ (22, 102, 1001) ∷ [])
      (inr refl, (inl (omega arith), tt))

both_valid :
    validate_all ℕ_discrete keys ((21, 101, 1000) ∷ (22, 102, 1001) ∷ [])
    ≡ some (key_row 1 21 7 true) ∷ some (key_row 2 22 8 true) ∷ []
unfolding code
both_valid = refl
