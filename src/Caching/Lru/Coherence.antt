-- ===== src/Caching/Lru/Coherence.antt =====
-- The LRU cache is well formed, and never serves anything but what was last stored under the key,
-- within its time to live.
use salesinfo_api_v.Base.{
  ℕ, suc, ◌≤◌, ◌<◌, ◌≡◌, refl, true, leb, arith, List, [], ◌∷◌, Option, some, length, inl, inr,
  Option-cases, Bool-cases, length-append, ap, leb→le, subst,
}
use salesinfo_api_v.Base.Dict.{
  lookup, assign, delete, Absent, IsDict, Absent-delete_self, Absent-lookup, lookup_of_Absent,
  delete-IsDict, assign-IsDict, IsDict-append_new, length-delete, length-delete-le,
  length-assign_new,
}
use salesinfo_api_v.Caching.Entry.{CacheEntry, entry, is_expired, record_access}
use salesinfo_api_v.Caching.Lru.{
  LruQueryCache, move_to_end, get, put, make_room, evict_first, invalidate, clear,
}

-- No key is stored twice, and no more entries than the capacity, which is positive.
pub record IsValid {ℓ} {K V : Type ℓ} (c : LruQueryCache K V) : Type ℓ where
  pub positive : 0 < c.max_size
  pub dict : IsDict c.cache
  pub bounded : length c.cache ≤ c.max_size

module _ {ℓ} {K V : Type ℓ} (dec : Discrete K) where
  move_to_end-IsDict :
      (k : K) (e : CacheEntry V) (d : List (K × CacheEntry V))
      → IsDict d
      → IsDict (move_to_end dec k e d)
  unfolding move_to_end
  move_to_end-IsDict k e d h =
      IsDict-append_new k e (delete dec k d) (Absent-delete_self dec k d h)
        (delete-IsDict dec k d h)

  length-move_to_end :
      (k : K) (e f : CacheEntry V) (d : List (K × CacheEntry V))
      → lookup dec k d ≡ some f
      → length (move_to_end dec k e d) ≡ length d
  unfolding move_to_end
  length-move_to_end k e f d h =
      omega (arith, length-append (delete dec k d) ((k, e) ∷ []), length-delete dec k d f h)

  pub get-IsValid :
      (c : LruQueryCache K V) (k : K) (now : ℕ) → IsValid c → IsValid (get dec c k now).0
  unfolding get
  get-IsValid c k now v = elim (Option-cases (lookup dec k c.cache)) [
    | inl miss ↦
        rw (miss, get) (record { positive = v.positive; dict = v.dict; bounded = v.bounded })
    | inr (e, hit) ↦ elim (Bool-cases (is_expired e now)) [
      | inl old ↦
          rw (hit, get, old)
            (record {
              positive = v.positive;
              dict = delete-IsDict dec k c.cache v.dict;
              bounded = omega (arith, v.bounded, length-delete-le dec k c.cache);
            })
      | inr fresh ↦
          rw (hit, get, fresh)
            (record {
              positive = v.positive;
              dict = move_to_end-IsDict k _ c.cache v.dict;
              bounded =
                  omega
                    (arith, v.bounded, length-move_to_end k (record_access e now) e c.cache hit);
            })
    ]
  ]

  -- The entries that `put` keeps when the key is new: there is room for one more, and none is new.
  pub record IsKept (c : LruQueryCache K V) (kept : List (K × CacheEntry V)) : Type ℓ where
    pub result : make_room dec c ≡ some kept
    pub dict : IsDict kept
    pub room : suc (length kept) ≤ c.max_size
    pub absent : (j : K) → Absent j c.cache → Absent j kept
    pub same :
        (j : K) (e : CacheEntry V) → lookup dec j kept ≡ some e → lookup dec j c.cache ≡ some e

  lookup-tail :
      (x : K × CacheEntry V) (d : List (K × CacheEntry V)) (j : K) (e : CacheEntry V)
      → IsDict (x ∷ d)
      → lookup dec j d ≡ some e
      → lookup dec j (x ∷ d) ≡ some e
  unfolding lookup
  lookup-tail x d j e h f = ground (arith, lookup_of_Absent dec x.0 d h.0)

  make_room_full :
      (c : LruQueryCache K V) (d : List (K × CacheEntry V))
      → c.cache ≡ d
      → IsValid c
      → leb c.max_size (length c.cache) ≡ true
      → (kept : List (K × CacheEntry V)) × IsKept c kept
  unfolding make_room evict_first
  make_room_full c [] e v full = absurd (omega (arith, v.positive, leb→le _ _ full, ap length e))
  make_room_full c (x ∷ xs) e v full = (
    xs,
    record {
      result = rw full (rw e refl);
      dict = (subst IsDict e v.dict).1;
      room = omega (arith, v.bounded, ap length e);
      absent = λ j a. (subst (Absent j) e a).1;
      same = λ j f h. rw e (lookup-tail x xs j f (subst IsDict e v.dict) h);
    },
  )

  pub make_room-IsKept :
      (c : LruQueryCache K V) → IsValid c → (kept : List (K × CacheEntry V)) × IsKept c kept
  unfolding make_room
  make_room-IsKept c v = elim (Bool-cases (leb c.max_size (length c.cache))) [
    | inl full ↦ make_room_full c c.cache refl v full
    | inr free ↦ (
      c.cache,
      record {
        result = rw free refl;
        dict = v.dict;
        room = ground arith;
        absent = λ j a. a;
        same = λ j e h. h;
      },
    )
  ]

  -- On a valid cache `put` does not raise, and the cache stays valid.
  pub put-IsValid :
      (c : LruQueryCache K V) (k : K) (value : V) (ttl : Option ℕ) (now : ℕ)
      → IsValid c
      → (d : LruQueryCache K V) × (put dec c k value ttl now ≡ some d) × IsValid d
  unfolding put
  put-IsValid c k value ttl now v = elim (Option-cases (lookup dec k c.cache)) [
    | inr (e, hit) ↦ (
      record c { cache = move_to_end dec k (entry value ttl now) c.cache },
      rw (hit, put),
      record {
        positive = v.positive;
        dict = move_to_end-IsDict k _ c.cache v.dict;
        bounded =
            omega (arith, v.bounded, length-move_to_end k (entry value ttl now) e c.cache hit);
      },
    )
    | inl miss ↦
        let (kept, fit) = make_room-IsKept c v in
        let new = fit.absent k (Absent-lookup dec k c.cache miss) in
        (
          record c { cache = assign dec k (entry value ttl now) kept },
          rw (miss, put, fit.result),
          record {
            positive = v.positive;
            dict = assign-IsDict dec k (entry value ttl now) kept fit.dict;
            bounded = omega (
              arith,
              fit.room,
              length-assign_new dec k (entry value ttl now) kept (lookup_of_Absent dec k kept new),
            );
          },
        )
  ]

  pub invalidate-IsValid :
      (c : LruQueryCache K V) (k : K) → IsValid c → IsValid (invalidate dec c k)
  unfolding invalidate
  invalidate-IsValid c k v = record {
    positive = v.positive;
    dict = delete-IsDict dec k c.cache v.dict;
    bounded = omega (arith, v.bounded, length-delete-le dec k c.cache);
  }

  pub clear-IsValid : (c : LruQueryCache K V) → IsValid c → IsValid (clear dec c)
  unfolding clear
  clear-IsValid c v = record { positive = v.positive; dict = tt; bounded = omega arith }
