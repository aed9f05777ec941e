-- ===== src/Caching/Lru/History.antt =====
-- The LRU cache over a history of calls, against an ideal store that forgets nothing.
use salesinfo_api_v.Base.{
  ℕ, ◌-◌, ◌≡◌, ◌≢◌, sym, ◌∙◌, ap, Bool, false, ltb, arith, List, [], ◌∷◌, Option, none, some, ite,
  if_pos, if_neg, inl, inr, Option-cases, Bool-cases, ◌⊎◌,
}
use salesinfo_api_v.Base.Dict.{
  lookup, assign, delete, IsDict, lookup-assign, lookup-delete_ne, lookup-move_last,
  Absent-delete_self, lookup_of_Absent,
}
use salesinfo_api_v.Caching.Entry.{CacheEntry, entry, is_expired, record_access}
use salesinfo_api_v.Caching.Lru.{LruQueryCache, move_to_end, get, put, invalidate, clear}
use salesinfo_api_v.Caching.Lru.Coherence.{IsValid, IsKept, make_room-IsKept}

-- What was stored under a key: the value, its time to live, and when.
pub record Stored {ℓ} (V : Type ℓ) : Type ℓ where
  pub value : V
  pub ttl : Option ℕ
  pub created_at : ℕ

abbrev pub stored {ℓ} : {V : Type ℓ} → CacheEntry V → Stored V
stored e = record { value = e.value; ttl = e.ttl; created_at = e.created_at }

abbrev pub outlived {ℓ} : {V : Type ℓ} → Stored V → ℕ → Bool
outlived e now = elim e.ttl [ none ↦ false | some ttl ↦ ltb ttl (now - e.created_at) ]

pub data Call {ℓ} (K V : Type ℓ) : Type ℓ where
  gets : K → ℕ → Call K V
  puts : K → V → Option ℕ → ℕ → Call K V
  invalidates : K → Call K V
  clears : Call K V

module _ {ℓ} {K V : Type ℓ} (dec : Discrete K) where
  -- `none` if a call raises.
  unfoldable pub step : LruQueryCache K V → Call K V → Option (LruQueryCache K V)
  step c (gets k now) = some (get dec c k now).0
  step c (puts k value ttl now) = put dec c k value ttl now
  step c (invalidates k) = some (invalidate dec c k)
  step c clears = some (clear dec c)

  unfoldable pub run : LruQueryCache K V → List (Call K V) → Option (LruQueryCache K V)
  run c [] = some c
  run c (x ∷ xs) = elim (step c x) [ none ↦ none | some d ↦ run d xs ]

  -- What a store with no bound on its size holds.
  unfoldable pub note : (K → Option (Stored V)) → Call K V → K → Option (Stored V)
  note s (gets k now) j = s j
  note s (puts k value ttl now) j =
      ite (dec k j) (some (record { value = value; ttl = ttl; created_at = now })) (s j)
  note s (invalidates k) j = ite (dec k j) none (s j)
  note s clears j = none

  unfoldable pub latest : (K → Option (Stored V)) → List (Call K V) → K → Option (Stored V)
  latest s [] = s
  latest s (x ∷ xs) = latest (note s x) xs

  -- Every entry is the latest stored under its key.
  abbrev pub Agrees : LruQueryCache K V → (K → Option (Stored V)) → Type ℓ
  Agrees c s = (j : K) (e : CacheEntry V) → lookup dec j c.cache ≡ some e → s j ≡ some (stored e)

  lookup-delete-some :
      (k j : K) (d : List (K × CacheEntry V)) (e : CacheEntry V)
      → IsDict d
      → lookup dec j (delete dec k d) ≡ some e
      → (k ≢ j) × (lookup dec j d ≡ some e)
  lookup-delete-some k j d e h f = elim (dec k j) [
    | yes p ↦
        absurd (
          ground (arith, p, lookup_of_Absent dec k (delete dec k d) (Absent-delete_self dec k d h)))
    | no n ↦ (n, sym (lookup-delete_ne dec k j d n) ∙ f)
  ]

  pub invalidate-Agrees :
      (c : LruQueryCache K V) (s : K → Option (Stored V)) (k : K)
      → IsValid c
      → Agrees c s
      → Agrees (invalidate dec c k) (note s (invalidates k))
  unfolding invalidate note
  invalidate-Agrees c s k v a j e h =
      let (other, held) = lookup-delete-some k j c.cache e v.dict h in
      rw (if_neg _ other) (a j e held)

  pub moved_lookup :
      (d : List (K × CacheEntry V)) (k j : K) (e f : CacheEntry V)
      → IsDict d
      → lookup dec j (move_to_end dec k e d) ≡ some f
      → ((k ≡ j) × (e ≡ f)) ⊎ ((k ≢ j) × (lookup dec j d ≡ some f))
  unfolding move_to_end
  moved_lookup d k j e f h g = elim (dec k j) [
    | yes p ↦ inl (p, ground (arith, lookup-move_last dec k j e d h))
    | no n ↦ inr (n, ground (arith, lookup-move_last dec k j e d h))
  ]

  pub get-Agrees :
      (c : LruQueryCache K V) (s : K → Option (Stored V)) (k : K) (now : ℕ)
      → IsValid c
      → Agrees c s
      → Agrees (get dec c k now).0 s
  unfolding get record_access
  get-Agrees c s k now v a j f = elim (Option-cases (lookup dec k c.cache)) [
    | inl miss ↦ rw (miss, get) (a j f)
    | inr (e, hit) ↦ elim (Bool-cases (is_expired e now)) [
      | inl old ↦ rw (hit, get, old) (λ h. a j f (lookup-delete-some k j c.cache f v.dict h).1)
      | inr fresh ↦
          rw (hit, get, fresh)
            λ h. elim (moved_lookup c.cache k j (record_access e now) f v.dict h) [
              | inl (same, there) ↦ ground (arith, a k e hit)
              | inr (other, held) ↦ a j f held
            ]
    ]
  ]

  pub put_shape :
      (c d : LruQueryCache K V) (k : K) (value : V) (ttl : Option ℕ) (now : ℕ)
      → IsValid c
      → put dec c k value ttl now ≡ some d
      → (d.cache ≡ move_to_end dec k (entry value ttl now) c.cache)
        ⊎ ((kept : List (K × CacheEntry V)) × IsKept dec c kept
            × (d.cache ≡ assign dec k (entry value ttl now) kept))
  unfolding put
  put_shape c d k value ttl now v p = elim (Option-cases (lookup dec k c.cache)) [
    | inr (e, hit) ↦ inl (ground arith)
    | inl miss ↦
        let (kept, fit) = make_room-IsKept dec c v in inr (kept, fit, ground (arith, fit.result))
  ]

  -- What a `put` leaves under each key.
  put-lookup :
      (c d : LruQueryCache K V) (k j : K) (value : V) (ttl : Option ℕ) (now : ℕ) (f : CacheEntry V)
      → IsValid c
      → put dec c k value ttl now ≡ some d
      → lookup dec j d.cache ≡ some f
      → ((k ≡ j) × (entry value ttl now ≡ f)) ⊎ ((k ≢ j) × (lookup dec j c.cache ≡ some f))
  put-lookup c d k j value ttl now f v p h = elim (put_shape c d k value ttl now v p) [
    | inl moved ↦ moved_lookup c.cache k j (entry value ttl now) f v.dict (rw moved at h)
    | inr (kept, fit, e) ↦ elim (dec k j) [
      | yes q ↦ inl (q, ground (arith, lookup-assign dec k j (entry value ttl now) kept))
      | no n ↦
          inr (n, fit.same j f (ground (arith, lookup-assign dec k j (entry value ttl now) kept)))
    ]
  ]

  pub put-Agrees :
      (c d : LruQueryCache K V) (s : K → Option (Stored V)) (k : K) (value : V) (ttl : Option ℕ)
      (now : ℕ)
      → IsValid c
      → Agrees c s
      → put dec c k value ttl now ≡ some d
      → Agrees d (note s (puts k value ttl now))
  unfolding note entry
  put-Agrees c d s k value ttl now v a p j f h = elim (put-lookup c d k j value ttl now f v p h) [
    | inl (same, new) ↦ rw (if_pos _ same) (ap (λ e. some (stored e)) new)
    | inr (other, held) ↦ rw (if_neg _ other) (a j f held)
  ]
