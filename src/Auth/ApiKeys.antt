-- ===== src/Auth/ApiKeys.antt =====
-- core/auth/api_key_service.py over the `api_keys` table of core/auth/api_key_repository.py. A hash of a
-- key is a value of `H`, as hashing gives it; callers that wait for another's validation are those of
-- Caching.Coordinator.Flights, whose code is the same. `clock` is the monotonic clock, `now` the wall's.
pub mod Revoked
use salesinfo_api_v.Base.{
  ℕ, zero, suc, ◌+◌, ltb, Bool, true, false, ◌&&◌, if◌then◌else◌, List, [], ◌∷◌, ◌++◌, Option, none,
  some, ite,
}
use salesinfo_api_v.Base.Dict.{lookup, assign, delete}

pub record KeyRow (K H S : Type 0) : Type 0 where
  pub key_id : K
  pub api_key_hash : H
  pub owner_id : K
  pub created_at : ℕ
  pub expires_at : Option ℕ
  pub scopes : S
  pub is_active : Bool

-- The table, and `_validation_cache` of one process: a key, and when its entry expires.
pub record KeyStore (K H S : Type 0) : Type 0 where
  pub rows : List (KeyRow K H S)
  pub cache : List (H × (KeyRow K H S × ℕ))
  pub ttl : ℕ

-- `expires_at and expires_at < current_time`: 0 is no expiry.
abbrev pub has_expired : Option ℕ → ℕ → Bool
has_expired none now = false
has_expired (some zero) now = false
has_expired (some (suc t)) now = ltb (suc t) now

module _ {A : Type 0} (dec : Discrete A) where
  unfoldable pub same : A → A → Bool
  same a b = ite (dec a b) true false

module _ {K H S : Type 0} (dec_hash : Discrete H) where
  -- The SELECT of `validate`: the first active row with the hash.
  unfoldable pub find_active : H → List (KeyRow K H S) → Option (KeyRow K H S)
  find_active h [] = none
  find_active h (r ∷ rows) =
      let rest = find_active h rows in
      if same dec_hash r.api_key_hash h && r.is_active then some r else rest

  unfoldable pub validate : H → ℕ → List (KeyRow K H S) → Option (KeyRow K H S)
  validate h now rows = elim (find_active h rows) [
    | none ↦ none
    | some r ↦ if has_expired r.expires_at now then none else some r
  ]

  -- The cache part of `validate_api_key`: the store, and the entry if it is not over.
  unfoldable pub peek : KeyStore K H S → H → ℕ → KeyStore K H S × Option (KeyRow K H S)
  peek s h clock = elim (lookup dec_hash h s.cache) [
    | none ↦ (s, none)
    | some cached ↦
        if ltb clock cached.1
        then (s, some cached.0)
        else (record s { cache = delete dec_hash h s.cache }, none)
  ]

  -- A valid key is cached from the time at which the call began; an invalid one is not.
  abbrev pub keep : KeyStore K H S → H → ℕ → Option (KeyRow K H S) → KeyStore K H S
  keep s h clock none = s
  keep s h clock (some r) = record s { cache = assign dec_hash h (r, clock + s.ttl) s.cache }

  unfoldable pub validate_api_key :
      KeyStore K H S → H → ℕ → ℕ → KeyStore K H S × Option (KeyRow K H S)
  validate_api_key s h clock now =
      let p = peek s h clock in
      elim p.1 [
        | some r ↦ (p.0, some r)
        | none ↦ (keep p.0 h clock (validate h now s.rows), validate h now s.rows)
      ]

  -- Calls one after another: a hash, and the two clocks.
  unfoldable pub validate_all : KeyStore K H S → List (H × ℕ × ℕ) → List (Option (KeyRow K H S))
  validate_all s [] = []
  validate_all s ((h, clock, now) ∷ calls) =
      let v = validate_api_key s h clock now in v.1 ∷ validate_all v.0 calls

module _ {K H S : Type 0} (dec : Discrete K) where
  abbrev pub is_owned : K → K → KeyRow K H S → Bool
  is_owned key_id owner_id r = same dec r.key_id key_id && same dec r.owner_id owner_id

  -- The UPDATE of `revoke`.
  unfoldable pub deactivate : K → K → List (KeyRow K H S) → List (KeyRow K H S)
  deactivate key_id owner_id [] = []
  deactivate key_id owner_id (r ∷ rows) =
      (if is_owned key_id owner_id r then record r { is_active = false } else r)
      ∷ deactivate key_id owner_id rows

  -- The DELETE of `delete`.
  unfoldable pub remove : K → K → List (KeyRow K H S) → List (KeyRow K H S)
  remove key_id owner_id [] = []
  remove key_id owner_id (r ∷ rows) =
      let rest = remove key_id owner_id rows in
      if is_owned key_id owner_id r then rest else r ∷ rest

  -- `_evict_by_key_id`.
  unfoldable pub evict : K → List (H × (KeyRow K H S × ℕ)) → List (H × (KeyRow K H S × ℕ))
  evict key_id [] = []
  evict key_id (e ∷ cache) =
      let rest = evict key_id cache in if same dec e.1.0.key_id key_id then rest else e ∷ rest

  -- The repository answers true whenever its statement ran, so the cache is always scanned.
  unfoldable pub revoke_api_key : KeyStore K H S → K → K → KeyStore K H S × Bool
  revoke_api_key s key_id owner_id =
      (record s { rows = deactivate key_id owner_id s.rows; cache = evict key_id s.cache }, true)

  unfoldable pub delete_api_key : KeyStore K H S → K → K → KeyStore K H S × Bool
  delete_api_key s key_id owner_id =
      (record s { rows = remove key_id owner_id s.rows; cache = evict key_id s.cache }, true)

  -- The INSERT of `create`: `none` is the violation of the primary key.
  unfoldable pub has_key : K → List (KeyRow K H S) → Bool
  has_key key_id [] = false
  has_key key_id (r ∷ rows) =
      let rest = has_key key_id rows in if same dec r.key_id key_id then true else rest

  unfoldable pub create : KeyStore K H S → KeyRow K H S → Option (KeyStore K H S)
  create s row =
      if has_key row.key_id s.rows then none else some (record s { rows = s.rows ++ row ∷ [] })
