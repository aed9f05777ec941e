-- ===== src/Caching/Coordinator/Entries.antt =====
-- Entries of `LRUQueryCache` in core/db/cache.py that have what the database has.

use salesinfo_api_v.Base.{
  ℕ, ◌<◌, ◌≡◌, ◌⊎◌, inl, inr, refl, ap, subst, arith, leb, if◌then◌else◌, List, [], ◌∷◌, Option,
  none, some, All, All-append, Bool-cases, Option-cases, if_pos, if_neg, length,
}
use salesinfo_api_v.Base.Dict.{lookup, assign, delete}
use salesinfo_api_v.Caching.Entry.{CacheEntry, entry, is_expired, record_access}
use salesinfo_api_v.Caching.Lru.{
  LruQueryCache, HybridQueryCache, get, put, move_to_end, evict_first, make_room, hybrid_put,
}

module _ {K A : Type 0} (dec : Discrete K) (P : K × A → Type 0) where
  pub All-assign :
      (k : K) (a : A) (d : List (K × A)) → P (k, a) → All P d → All P (assign dec k a d)
  unfolding assign
  All-assign k a [] p h = (p, tt)
  All-assign k a (e ∷ d) p h = elim (dec e.0 k) [
    | yes here ↦ rw (if_pos _ here) (p, h.1)
    | no other ↦ rw (if_neg _ other) (h.0, All-assign k a d p h.1)
  ]

  All-delete : (k : K) (d : List (K × A)) → All P d → All P (delete dec k d)
  unfolding delete
  All-delete k [] h = tt
  All-delete k (e ∷ d) h = elim (dec e.0 k) [
    | yes here ↦ rw (if_pos _ here) h.1
    | no other ↦ rw (if_neg _ other) (h.0, All-delete k d h.1)
  ]

  pub All-lookup : (k : K) (a : A) (d : List (K × A)) → lookup dec k d ≡ some a → All P d → P (k, a)
  unfolding lookup
  All-lookup k a [] e h = absurd (ground (arith, e))
  All-lookup k a (x ∷ d) e h = elim (dec x.0 k) [
    | yes here ↦
        let value : x.1 ≡ a = ground (arith, e, here) in
        subst (λ (b : A). P (k, b)) value (subst (λ (j : K). P (j, x.1)) here h.0)
    | no other ↦ All-lookup k a d (ground (arith, e, other)) h.1
  ]

module _ {K V : Type 0} (dec : Discrete K) (db : K → V) where
  -- Each entry has the value that the database has for its key.
  abbrev pub IsCurrentEntry : K × CacheEntry V → Type 0
  IsCurrentEntry e = e.1.value ≡ db e.0

  move_to_end-All :
      (k : K) (e : CacheEntry V) (d : List (K × CacheEntry V))
      → e.value ≡ db k
      → All IsCurrentEntry d
      → All IsCurrentEntry (move_to_end dec k e d)
  unfolding move_to_end
  move_to_end-All k e d v h =
      All-append IsCurrentEntry (delete dec k d) ((k, e) ∷ []) (All-delete dec IsCurrentEntry k d h)
        (v, tt)

  pub get-All :
      (c : LruQueryCache K V) (k : K) (now : ℕ)
      → All IsCurrentEntry c.cache
      → All IsCurrentEntry (get dec c k now).0.cache
        × ((get dec c k now).0.max_size ≡ c.max_size)
        × (((get dec c k now).1 ≡ some (db k)) ⊎ ((get dec c k now).1 ≡ none))
  unfolding get record_access
  get-All c k now h = elim (Option-cases (lookup dec k c.cache)) [
    | inl absent ↦ rw (absent, get) (h, refl, inr refl)
    | inr (e, there) ↦
        let value = All-lookup dec IsCurrentEntry k e c.cache there h in
        elim (Bool-cases (is_expired e now)) [
          | inl over ↦
              rw (there, get) (rw over (All-delete dec IsCurrentEntry k c.cache h, refl, inr refl))
          | inr fresh ↦
              rw (there, get)
                (rw fresh (
                  move_to_end-All k (record_access e now) c.cache value h,
                  refl,
                  inl (ap some value),
                ))
        ]
  ]

  -- Where there is room for an entry at all, `put` succeeds.
  pub put-All :
      (c : LruQueryCache K V) (k : K) (ttl : Option ℕ) (now : ℕ)
      → 0 < c.max_size
      → All IsCurrentEntry c.cache
      → (after : LruQueryCache K V) × (put dec c k (db k) ttl now ≡ some after)
        × All IsCurrentEntry after.cache
        × (after.max_size ≡ c.max_size)
  unfolding put entry make_room evict_first
  put-All c k ttl now positive h = elim (Option-cases (lookup dec k c.cache)) [
    | inr (e, there) ↦
        let e2 = entry (db k) ttl now in
        (
          record c { cache = move_to_end dec k e2 c.cache },
          rw (there, put) refl,
          move_to_end-All k e2 c.cache refl h,
          refl,
        )
    | inl absent ↦
        let (kept, room, all) = made_room c.cache h in
        (
          record c { cache = assign dec k (entry (db k) ttl now) kept },
          rw (absent, put) (rw room refl),
          All-assign dec IsCurrentEntry k (entry (db k) ttl now) kept refl all,
          refl,
        )
  ]
    where
      made_room :
          (d : List (K × CacheEntry V))
          → All IsCurrentEntry d
          → (kept : List (K × CacheEntry V)) × ((if leb c.max_size (length d)
                then evict_first dec d
                else some d)
              ≡ some kept)
            × All IsCurrentEntry kept
      made_room [] a = ([], ground (arith, positive), tt)
      made_room (x ∷ d) a = elim (Bool-cases (leb c.max_size (length (x ∷ d)))) [
        | inl full ↦ (d, rw full refl, a.1)
        | inr fits ↦ (x ∷ d, rw fits refl, a)
      ]

module _ {K V : Type 0} (dec : Discrete K) where
  pub hybrid_put-some :
      (c : HybridQueryCache K V) (key : K) (v : V) (ttl now : ℕ) (store : LruQueryCache K V)
      → put dec c.store key v (some ttl) now ≡ some store
      → hybrid_put dec c key v (some ttl) now ≡ some (record c { store = store })
  unfolding hybrid_put
  hybrid_put-some c key v ttl now store e = rw (e, hybrid_put) refl
