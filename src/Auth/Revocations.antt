-- ===== src/Auth/Revocations.antt =====
-- The revocations of `PersistentAuthState` in core/auth/shared_state.py: a table that all processes
-- share, and the cache that one process keeps of it. Times are numbers of one unit; `now` is the
-- monotonic clock of the process. The creation of the tables changes no row and is left out.
pub mod Staleness
pub mod Race
use salesinfo_api_v.Base.{ℕ, ◌+◌, ltb, if◌then◌else◌, List, [], ◌∷◌, Option, none, some}
use salesinfo_api_v.Base.Dict.{lookup, assign, delete}

-- `_app_jwt_revocations` and `_revocation_cache`: a value, and when it expires.
pub record Revocations (K : Type 0) : Type 0 where
  pub table : List (K × ℕ)
  pub cache : List (K × (Option ℕ × ℕ))
  pub ttl : ℕ

-- What happens, in the order of time: a read that starts and ends at given times, a write of this process,
-- and one of another process.
pub data Event (K : Type 0) : Type 0 where
  gets : K → (now later : ℕ) → Event K
  sets : K → (at now : ℕ) → Event K
  sets_elsewhere : K → (at : ℕ) → Event K

module _ {K : Type 0} (dec : Discrete K) where
  -- The first part of `get_revoked_before`: the value in the cache, unless there is none or it is over.
  unfoldable pub peek : Revocations K → K → ℕ → Revocations K × Option (Option ℕ)
  peek r user_id now = elim (lookup dec user_id r.cache) [
    | none ↦ (r, none)
    | some cached ↦
        if ltb now cached.1
        then (r, some cached.0)
        else (record r { cache = delete dec user_id r.cache }, none)
  ]

  -- The last part, with the value that was read from the table.
  unfoldable pub fill : Revocations K → K → Option ℕ → ℕ → Revocations K
  fill r user_id value now = record r { cache = assign dec user_id (value, now + r.ttl) r.cache }

  -- `get_revoked_before` with nothing in between; the clock is read before and after the table.
  unfoldable pub get_revoked_before : Revocations K → K → ℕ → ℕ → Revocations K × Option ℕ
  get_revoked_before r user_id now later =
      let p = peek r user_id now in
      elim p.1 [
        | some value ↦ (p.0, value)
        | none ↦ (fill p.0 user_id (lookup dec user_id r.table) later, lookup dec user_id r.table)
      ]

  -- The UPSERT, by whichever process.
  unfoldable pub store : Revocations K → K → ℕ → Revocations K
  store r user_id at = record r { table = assign dec user_id at r.table }

  unfoldable pub set_revoked_before : Revocations K → K → ℕ → ℕ → Revocations K
  set_revoked_before r user_id at now = fill (store r user_id at) user_id (some at) now

  unfoldable pub step : Revocations K → Event K → Revocations K
  step r (gets user_id now later) = (get_revoked_before r user_id now later).0
  step r (sets user_id at now) = set_revoked_before r user_id at now
  step r (sets_elsewhere user_id at) = store r user_id at

  unfoldable pub run : Revocations K → List (Event K) → Revocations K
  run r [] = r
  run r (e ∷ events) = run (step r e) events
