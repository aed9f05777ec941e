-- ===== src/Caching/Ttl/Overwrite.antt =====
-- What `get` of `TTLQueryCache` in core/db/cache.py returns after `put`, and what `put` does to a
-- key that is present.
use salesinfo_api_v.Base.{
  ℕ, ◌+◌, ◌-◌, ◌≤◌, ◌≡◌, refl, arith, leb, if◌then◌else◌, List, Option, none, some, length, ap,
}
use salesinfo_api_v.Base.Dict.{lookup, assign, delete, lookup-assign, length-assign_old}
use salesinfo_api_v.Caching.Entry.{CacheEntry, entry, is_expired}
use salesinfo_api_v.Caching.Ttl.{TtlQueryCache, ttl_or, get, make_room, put}
use salesinfo_api_v.Caching.Ttl.Bounds.{make_room-evicts}

module _ {ℓ} {K V : Type ℓ} (dec : Discrete K) where
  put_made :
      (c d : TtlQueryCache K V) (k : K) (value : V) (ttl : Option ℕ) (at : ℕ)
      (kept : Option (List (K × CacheEntry V)))
      → make_room dec c ≡ kept
      → put dec c k value ttl at ≡ some d
      → (rest : List (K × CacheEntry V)) × (kept ≡ some rest)
        × (d.cache ≡ assign dec k (entry value (some (ttl_or ttl c.default_ttl)) at) rest)
  unfolding put
  put_made c d k value ttl at none m p = ground (arith, rw (m, put) at p)
  put_made c d k value ttl at (some rest) m p = (rest, refl, ground (arith, rw (m, put) at p))

  -- Whatever the state of the cache, a value that was just put is returned exactly as long as its
  -- age is at most its time to live, which is the default one if none or 0 was given.
  ttl_get-put :
      (c d : TtlQueryCache K V) (k : K) (value : V) (ttl : Option ℕ) (at now : ℕ)
      → put dec c k value ttl at ≡ some d
      → (get dec d k now).1
        ≡ (if leb (now - at) (ttl_or ttl c.default_ttl) then some value else none)
  unfolding get is_expired entry
  ttl_get-put c d k value ttl at now p =
      let (rest, made, shape) = put_made c d k value ttl at (make_room dec c) refl p in
      let new = entry value (some (ttl_or ttl c.default_ttl)) at in
      let there : lookup dec k d.cache ≡ some new =
        rw shape (ground (arith, lookup-assign dec k k new rest)) in
      rw (there, get) (ground arith)

  -- If a key is present in a full cache and the entry that makes room is another key's, overwriting
  -- the key loses that entry: the cache is one entry smaller afterwards.
  put_present :
      (c d : TtlQueryCache K V) (k : K) (value : V) (ttl : Option ℕ) (at : ℕ)
      (kept : List (K × CacheEntry V)) (e : CacheEntry V)
      → 1 ≤ length c.cache
      → c.max_size ≤ length c.cache
      → make_room dec c ≡ some kept
      → lookup dec k kept ≡ some e
      → put dec c k value ttl at ≡ some d
      → length d.cache + 1 ≡ length c.cache
  put_present c d k value ttl at kept e one full m there p =
      let (rest, made, shape) = put_made c d k value ttl at (some kept) m p in
      let (b, evicted, shorter, least) = make_room-evicts dec c one full in
      let new = entry value (some (ttl_or ttl c.default_ttl)) at in
      let same : rest ≡ kept = ground (arith, made) in
      let gone : kept ≡ delete dec b.0 c.cache = ground (arith, m, evicted) in
      let kept_size : length (assign dec k new kept) ≡ length kept =
        length-assign_old dec k new e kept there in
      rw (shape, same) (omega (arith, kept_size, shorter, ap length gone))
