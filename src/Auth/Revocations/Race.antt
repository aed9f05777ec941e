-- ===== src/Auth/Revocations/Race.antt =====
-- A read of `PersistentAuthState` in core/auth/shared_state.py that a write overtakes.
use salesinfo_api_v.Base.{ℕ, ◌+◌, ◌<◌, ◌≡◌, arith, Option, some}
use salesinfo_api_v.Base.Dict.{lookup, assign, lookup-assign}
use salesinfo_api_v.Auth.Revocations.{
  Revocations, peek, fill, get_revoked_before, store, set_revoked_before,
}

module _ {K : Type 0} (dec : Discrete K) where
  -- A read that was waiting for the table while this process wrote a revocation puts the old value back
  -- into the cache: until its time to live is over, the process answers the old value, though the table
  -- has the new one.
  fill-set_revoked_before :
      (r : Revocations K) (k : K) (old : Option ℕ) (at set_at filled now later : ℕ)
      → now < filled + r.ttl
      → ((get_revoked_before dec
            (fill dec (set_revoked_before dec r k at set_at) k old filled)
            k
            now
            later).1
          ≡ old)
        × (lookup dec k (fill dec (set_revoked_before dec r k at set_at) k old filled).table
            ≡ some at)
  unfolding get_revoked_before peek fill set_revoked_before store
  fill-set_revoked_before r k old at set_at filled now later young =
      let again : lookup dec k
            (assign dec k (old, filled + r.ttl) (assign dec k (some at, set_at + r.ttl) r.cache))
          ≡ some (old, filled + r.ttl) =
        ground (
          arith,
          lookup-assign dec k k (old, filled + r.ttl)
              (assign dec k (some at, set_at + r.ttl) r.cache),
        ) in
      (
        rw (again, get_revoked_before) (ground (arith, young)),
        ground (arith, lookup-assign dec k k at r.table),
      )
