-- ===== src/Caching/Lru/Served.antt =====
-- What a `get` may return after any history of calls on an LRU cache.
use salesinfo_api_v.Base.{
  ℕ, ◌-◌, ◌<◌, ◌≡◌, refl, false, leb, arith, if◌then◌else◌, List, [], ◌∷◌, Option, none, some, inl,
  inr, Option-cases,
}
use salesinfo_api_v.Base.Dict.{lookup, lookup-assign, lookup-move_last}
use salesinfo_api_v.Caching.Entry.{CacheEntry, entry, is_expired}
use salesinfo_api_v.Caching.Lru.{LruQueryCache, init, move_to_end, get, put, invalidate, clear}
use salesinfo_api_v.Caching.Lru.Coherence.{
  IsValid, get-IsValid, put-IsValid, invalidate-IsValid, clear-IsValid,
}
use salesinfo_api_v.Caching.Lru.History.{
  Stored, stored, outlived, Call, gets, puts, invalidates, clears, step, run, note, latest, Agrees,
  get-Agrees, put-Agrees, invalidate-Agrees, put_shape,
}
use salesinfo_api_v.Caching.Lru.{HybridQueryCache, hybrid_put, hybrid_get}

module _ {ℓ} {K V : Type ℓ} (dec : Discrete K) where
  -- The state after a history: valid, and in agreement with the unbounded store.
  pub record Tracks (c : LruQueryCache K V) (s : K → Option (Stored V)) : Type ℓ where
    pub valid : IsValid c
    pub agrees : Agrees dec c s

  step-Tracks :
      (c : LruQueryCache K V) (s : K → Option (Stored V)) (x : Call K V)
      → Tracks c s
      → (d : LruQueryCache K V) × (step dec c x ≡ some d) × Tracks d (note dec s x)
  unfolding step
  step-Tracks c s (gets k now) t = (
    (get dec c k now).0,
    refl,
    record {
      valid = get-IsValid dec c k now t.valid;
      agrees = unfold note in get-Agrees dec c s k now t.valid t.agrees;
    },
  )
  step-Tracks c s (puts k value ttl now) t =
      let (d, p, v) = put-IsValid dec c k value ttl now t.valid in
      (d, p, record { valid = v; agrees = put-Agrees dec c d s k value ttl now t.valid t.agrees p })
  step-Tracks c s (invalidates k) t = (
    invalidate dec c k,
    refl,
    record {
      valid = invalidate-IsValid dec c k t.valid;
      agrees = invalidate-Agrees dec c s k t.valid t.agrees;
    },
  )
  step-Tracks c s clears t = (
    clear dec c,
    refl,
    record { valid = clear-IsValid dec c t.valid; agrees = unfold clear lookup in λ j e h. cc },
  )

  run-Tracks :
      (c : LruQueryCache K V) (s : K → Option (Stored V)) (xs : List (Call K V))
      → Tracks c s
      → (d : LruQueryCache K V) × (run dec c xs ≡ some d) × Tracks d (latest dec s xs)
  unfolding run latest
  run-Tracks c s [] t = (c, refl, t)
  run-Tracks c s (x ∷ xs) t =
      let (d, e, u) = step-Tracks c s x t in
      let (r, f, w) = run-Tracks d (note dec s x) xs u in (r, rw (e, run) f, w)

  init-Tracks : (max_size : ℕ) → 0 < max_size → Tracks (init max_size) (λ j. none)
  unfolding init lookup
  init-Tracks max_size h = record {
    valid = record { positive = h; dict = tt; bounded = omega arith };
    agrees = λ j e f. cc;
  }

  -- A cache of positive capacity never raises, whatever the history of calls: it ends in a state
  -- with at most that many entries and no key twice.
  run-init-IsValid :
      (max_size : ℕ) (xs : List (Call K V))
      → 0 < max_size
      → (c : LruQueryCache K V) × (run dec (init max_size) xs ≡ some c) × IsValid c
  run-init-IsValid max_size xs h =
      let (c, e, t) = run-Tracks (init max_size) (λ j. none) xs (init-Tracks max_size h) in
      (c, e, t.valid)

  hit_inversion :
      (c : LruQueryCache K V) (k : K) (now : ℕ) (x : V)
      → (get dec c k now).1 ≡ some x
      → (e : CacheEntry V) × (lookup dec k c.cache ≡ some e)
        × (e.value ≡ x)
        × (outlived (stored e) now ≡ false)
  unfolding get is_expired
  hit_inversion c k now x h = elim (Option-cases (lookup dec k c.cache)) [
    | inl miss ↦ absurd (ground arith)
    | inr (e, hit) ↦ (e, hit, ground arith, ground arith)
  ]

  -- After any history of calls on a cache of positive capacity, a value that `get` returns is the
  -- one stored last under the key, with no invalidation or clearing since, and it has not outlived
  -- its time to live.
  pub get-latest :
      (max_size : ℕ) (xs : List (Call K V)) (c : LruQueryCache K V) (k : K) (now : ℕ) (x : V)
      → 0 < max_size
      → run dec (init max_size) xs ≡ some c
      → (get dec c k now).1 ≡ some x
      → (s : Stored V) × (latest dec (λ j. none) xs k ≡ some s)
        × (s.value ≡ x)
        × (outlived s now ≡ false)
  get-latest max_size xs c k now x h e g =
      let (d, f, t) = run-Tracks (init max_size) (λ j. none) xs (init-Tracks max_size h) in
      let (w, hit, value, young) = hit_inversion c k now x g in
      let same : d ≡ c = ground (arith, e, f) in
      (stored w, t.agrees k w (rw same hit), value, young)

  stored_lookup :
      (c d : LruQueryCache K V) (k : K) (value : V) (ttl : Option ℕ) (at : ℕ)
      → IsValid c
      → put dec c k value ttl at ≡ some d
      → lookup dec k d.cache ≡ some (entry value ttl at)
  unfolding move_to_end
  stored_lookup c d k value ttl at v p = elim (put_shape dec c d k value ttl at v p) [
    | inl moved ↦
        rw moved (ground (arith, lookup-move_last dec k k (entry value ttl at) c.cache v.dict))
    | inr (kept, fit, e) ↦ rw e (ground (arith, lookup-assign dec k k (entry value ttl at) kept))
  ]

  -- A value that was just put into a valid cache is returned as long as its time to live lasts,
  -- also when the cache was full.
  get-put :
      (c d : LruQueryCache K V) (k : K) (value : V) (ttl : Option ℕ) (at now : ℕ)
      → IsValid c
      → put dec c k value ttl at ≡ some d
      → outlived (record { value = value; ttl = ttl; created_at = at }) now ≡ false
      → (get dec d k now).1 ≡ some value
  unfolding get is_expired entry
  get-put c d k value ttl at now v p young =
      let there = stored_lookup c d k value ttl at v p in rw (there, get) (rw young)

  -- In a valid hybrid cache an entry put with no time to live expires by the default one: `get`
  -- returns it exactly as long as its age is at most the default, where the plain cache would keep
  -- it for ever.
  hybrid_get-put_default :
      (c d : HybridQueryCache K V) (k : K) (value : V) (at now : ℕ)
      → IsValid c.store
      → hybrid_put dec c k value none at ≡ some d
      → (hybrid_get dec d k now).1 ≡ (if leb (now - at) c.default_ttl then some value else none)
  unfolding hybrid_put hybrid_get get is_expired entry
  hybrid_get-put_default c d k value at now v p =
      let there : lookup dec k d.store.cache ≡ some (entry value (some c.default_ttl) at) =
        stored_lookup c.store d.store k value (some c.default_ttl) at v (ground arith) in
      rw (there, get) (ground arith)
