-- ===== src/Caching/Ttl/Bounds.antt =====
-- How large the cache of `TTLQueryCache` in core/db/cache.py grows, what it evicts and what it
-- returns.
use salesinfo_api_v.Base.{
  ℕ, ◌+◌, ◌≤◌, ◌≡◌, refl, arith, true, leb, ltb, List, [], ◌∷◌, Option, none, some, length, All,
  All-mono, ◌∙◌, inl, inr, Bool-cases,
}
use salesinfo_api_v.Base.Dict.{
  lookup, assign, delete, IsDict, delete-IsDict, assign-IsDict, length-delete, length-delete-le,
  length-assign_old,
}
use salesinfo_api_v.Caching.Entry.{CacheEntry, entry, is_expired, record_access}
use salesinfo_api_v.Caching.Lru.History.{Call, gets, puts, invalidates, clears}
use salesinfo_api_v.Caching.Ttl.{
  TtlQueryCache, init, ttl_or, expiry, sooner, earliest_of, earliest, get, make_room, put,
  invalidate, clear,
}

-- The dictionary holds no key twice and at most `max_size` entries.
pub record IsBounded {ℓ} {K V : Type ℓ} (c : TtlQueryCache K V) : Type ℓ where
  pub dict : IsDict c.cache
  pub fits : length c.cache ≤ c.max_size

module _ {ℓ} {K V : Type ℓ} where
  sooner-le :
      (d : ℕ) (b other : K × CacheEntry V)
      → (expiry d (sooner d b other) ≤ expiry d b) × (expiry d (sooner d b other) ≤ expiry d other)
  sooner-le d b other = elim (Bool-cases (ltb (expiry d other) (expiry d b))) [
    | inl less ↦ rw less (ground (arith, less))
    | inr not_less ↦ rw not_less (ground (arith, not_less))
  ]

  earliest_of-All :
      (d : ℕ) (b : K × CacheEntry V) (cache : List (K × CacheEntry V))
      → All (λ e. expiry d (earliest_of d b cache) ≤ expiry d e) (b ∷ cache)
  unfolding earliest_of
  earliest_of-All d b [] = (omega arith, tt)
  earliest_of-All d b (x ∷ cache) =
      let (low, lower) = sooner-le d b (earliest_of d x cache) in
      (
        low,
        All-mono (λ e. expiry d (earliest_of d x cache) ≤ expiry d e) _ (x ∷ cache)
            (λ e le. omega (arith, le, lower)) (earliest_of-All d x cache),
      )

module _ {ℓ} {K V : Type ℓ} (dec : Discrete K) where
  lookup_head :
      (b : K × CacheEntry V) (cache : List (K × CacheEntry V))
      → lookup dec b.0 (b ∷ cache) ≡ some b.1
  unfolding lookup
  lookup_head b cache = ground arith

  lookup_cons :
      (k : K) (b : K × CacheEntry V) (cache : List (K × CacheEntry V)) (e : CacheEntry V)
      → lookup dec k cache ≡ some e
      → (x : CacheEntry V) × (lookup dec k (b ∷ cache) ≡ some x)
  unfolding lookup
  lookup_cons k b cache e q = elim (dec b.0 k) [
    | yes same ↦ (b.1, ground arith)
    | no other ↦ (e, ground (arith, q))
  ]

  earliest_of-lookup :
      (d : ℕ) (b : K × CacheEntry V) (cache : List (K × CacheEntry V))
      → (x : CacheEntry V) × (lookup dec (earliest_of d b cache).0 (b ∷ cache) ≡ some x)
  unfolding earliest_of
  earliest_of-lookup d b [] = (b.1, lookup_head b [])
  earliest_of-lookup d b (y ∷ cache) =
      elim (Bool-cases (ltb (expiry d (earliest_of d y cache)) (expiry d b))) [
        | inl less ↦
            let (x, there) = earliest_of-lookup d y cache in
            rw less (lookup_cons _ b (y ∷ cache) x there)
        | inr not_less ↦ rw not_less (b.1, lookup_head b (y ∷ cache))
      ]

  make_room_full :
      (c : TtlQueryCache K V) (x : K × CacheEntry V) (rest : List (K × CacheEntry V))
      → c.cache ≡ x ∷ rest
      → c.max_size ≤ length c.cache
      → make_room dec c ≡ some (delete dec (earliest_of c.default_ttl x rest).0 c.cache)
  unfolding make_room
  make_room_full c x rest e full =
      let test : leb c.max_size (length c.cache) ≡ true = ground (arith, full) in
      let found : earliest c.default_ttl c.cache ≡ some (earliest_of c.default_ttl x rest) =
        rw e refl in
      rw (test, make_room) (rw found)

  full_room :
      (c : TtlQueryCache K V) (cache : List (K × CacheEntry V))
      → c.cache ≡ cache
      → 1 ≤ length cache
      → c.max_size ≤ length c.cache
      → (b : K × CacheEntry V) × (make_room dec c ≡ some (delete dec b.0 c.cache))
        × (length (delete dec b.0 c.cache) + 1 ≡ length c.cache)
        × All (λ e. expiry c.default_ttl b ≤ expiry c.default_ttl e) c.cache
  full_room c [] e one full = absurd (omega (arith, one))
  full_room c (x ∷ rest) e one full =
      let (y, there) = earliest_of-lookup c.default_ttl x rest in
      (
        earliest_of c.default_ttl x rest,
        make_room_full c x rest e full,
        length-delete dec _ c.cache y (rw e there),
        rw e (earliest_of-All c.default_ttl x rest),
      )

  -- A full cache that is not empty makes room by evicting exactly one entry, and every entry of the
  -- cache expires no sooner than that one, entries without a time to live by the default.
  pub make_room-evicts :
      (c : TtlQueryCache K V)
      → 1 ≤ length c.cache
      → c.max_size ≤ length c.cache
      → (b : K × CacheEntry V) × (make_room dec c ≡ some (delete dec b.0 c.cache))
        × (length (delete dec b.0 c.cache) + 1 ≡ length c.cache)
        × All (λ e. expiry c.default_ttl b ≤ expiry c.default_ttl e) c.cache
  make_room-evicts c one full = full_room c c.cache refl one full

  length-assign-le :
      (k : K) (v : CacheEntry V) (d : List (K × CacheEntry V))
      → length (assign dec k v d) ≤ length d + 1
  unfolding assign
  length-assign-le k v [] = omega arith
  length-assign-le k v (e ∷ d) = ground (arith, length-assign-le k v d)

  pub length-assign_same :
      (k : K) (v w : CacheEntry V) (d : List (K × CacheEntry V))
      → lookup dec k d ≡ some w
      → length (assign dec k v d) ≤ length d
  length-assign_same k v w d e = omega (arith, length-assign_old dec k v w d e)

  -- Room is made in every bounded cache that may hold an entry.
  room :
      (c : TtlQueryCache K V)
      → 1 ≤ c.max_size
      → IsBounded c
      → (kept : List (K × CacheEntry V)) × (make_room dec c ≡ some kept)
        × IsDict kept
        × (length kept + 1 ≤ c.max_size)
  unfolding make_room
  room c one h = elim (Bool-cases (leb c.max_size (length c.cache))) [
    | inl full ↦
        let (b, made, shorter, least) =
          make_room-evicts c (ground (arith, full, one)) (ground (arith, full)) in
        (
          delete dec b.0 c.cache,
          made,
          delete-IsDict dec b.0 c.cache h.dict,
          omega (arith, shorter, h.fits),
        )
    | inr open_ ↦ (c.cache, rw (open_, make_room) refl, h.dict, ground (arith, open_))
  ]

  put-IsBounded :
      (c : TtlQueryCache K V) (k : K) (v : V) (ttl : Option ℕ) (now : ℕ)
      → 1 ≤ c.max_size
      → IsBounded c
      → (d : TtlQueryCache K V) × (put dec c k v ttl now ≡ some d)
        × (d.max_size ≡ c.max_size)
        × IsBounded d
  unfolding put
  put-IsBounded c k v ttl now one h =
      let (kept, made, dict, fits) = room c one h in
      let e = entry v (some (ttl_or ttl c.default_ttl)) now in
      (
        record c { cache = assign dec k e kept },
        rw (made, put) refl,
        refl,
        record {
          dict = assign-IsDict dec k e kept dict;
          fits = omega (arith, fits, length-assign-le k e kept);
        },
      )

  get-IsBounded :
      (c : TtlQueryCache K V) (k : K) (now : ℕ) (found : Option (CacheEntry V))
      → lookup dec k c.cache ≡ found
      → IsBounded c
      → ((get dec c k now).0.max_size ≡ c.max_size) × IsBounded (get dec c k now).0
  unfolding get
  get-IsBounded c k now none e h = rw (e, get) (refl, record { dict = h.dict; fits = h.fits })
  get-IsBounded c k now (some x) e h = elim (Bool-cases (is_expired x now)) [
    | inl old ↦
        rw (e, get)
          (rw old (
            refl,
            record {
              dict = delete-IsDict dec k c.cache h.dict;
              fits = omega (arith, h.fits, length-delete-le dec k c.cache);
            },
          ))
    | inr young ↦
        rw (e, get)
          (rw young (
            refl,
            record {
              dict = assign-IsDict dec k (record_access x now) c.cache h.dict;
              fits = omega (arith, h.fits, length-assign_same k (record_access x now) x c.cache e);
            },
          ))
  ]

  -- What a call makes of the cache; `none` where it raises.
  unfoldable pub step : TtlQueryCache K V → Call K V → Option (TtlQueryCache K V)
  step c (gets k now) = some (get dec c k now).0
  step c (puts k v ttl now) = put dec c k v ttl now
  step c (invalidates k) = some (invalidate dec c k)
  step c clears = some (clear c)

  unfoldable pub run : TtlQueryCache K V → List (Call K V) → Option (TtlQueryCache K V)
  run c [] = some c
  run c (x ∷ xs) = elim (step c x) [ none ↦ none | some d ↦ run d xs ]

  step-IsBounded :
      (c : TtlQueryCache K V) (x : Call K V)
      → 1 ≤ c.max_size
      → IsBounded c
      → (d : TtlQueryCache K V) × (step c x ≡ some d) × (d.max_size ≡ c.max_size) × IsBounded d
  unfolding step invalidate clear
  step-IsBounded c (gets k now) one h =
      let (size, bounded) = get-IsBounded c k now _ refl h in
      ((get dec c k now).0, refl, size, bounded)
  step-IsBounded c (puts k v ttl now) one h = put-IsBounded c k v ttl now one h
  step-IsBounded c (invalidates k) one h = (
    invalidate dec c k,
    refl,
    refl,
    record {
      dict = delete-IsDict dec k c.cache h.dict;
      fits = omega (arith, h.fits, length-delete-le dec k c.cache);
    },
  )
  step-IsBounded c clears one h = (clear c, refl, refl, record { dict = tt; fits = omega arith })

  run-IsBounded :
      (c : TtlQueryCache K V) (xs : List (Call K V))
      → 1 ≤ c.max_size
      → IsBounded c
      → (d : TtlQueryCache K V) × (run c xs ≡ some d) × (d.max_size ≡ c.max_size) × IsBounded d
  unfolding run
  run-IsBounded c [] one h = (c, refl, refl, h)
  run-IsBounded c (x ∷ xs) one h =
      let (d, stepped, size, bounded) = step-IsBounded c x one h in
      let (f, rest, size2, bounded2) = run-IsBounded d xs (omega (arith, one, size)) bounded in
      (f, rw (stepped, run) rest, size2 ∙ size, bounded2)

  -- A new cache with room for an entry raises in no sequence of calls, and in the end it holds no
  -- key twice and at most `max_size` entries, its size unchanged.
  pub ttl_run-IsBounded :
      (max_size default_ttl : ℕ) (xs : List (Call K V))
      → 1 ≤ max_size
      → (d : TtlQueryCache K V) × (run (init max_size default_ttl) xs ≡ some d)
        × (d.max_size ≡ max_size)
        × IsBounded d
  unfolding init
  ttl_run-IsBounded max_size default_ttl xs one =
      run-IsBounded (init max_size default_ttl) xs one (record { dict = tt; fits = omega arith })
