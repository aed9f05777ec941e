-- ===== src/Auth/ApiKeys/Revoked.antt =====
-- What becomes of a revoked or deleted key: core/auth/api_key_service.py.
use salesinfo_api_v.Base.{
  ℕ, ◌+◌, ◌≡◌, ◌≢◌, refl, arith, ltb, true, false, ◌&&◌, ◌⊎◌, inl, inr, List, [], ◌∷◌, Option, none,
  some, All, subst, Bool-cases, Option-cases, if_pos, if_neg,
}
use salesinfo_api_v.Base.Dict.{lookup, assign, delete}
use salesinfo_api_v.Auth.ApiKeys.{
  KeyRow, KeyStore, has_expired, same, find_active, validate, peek, keep, validate_api_key,
  validate_all, deactivate, evict, revoke_api_key,
}

module _ {K H S : Type 0} (dec : Discrete K) (dec_hash : Discrete H) (key_id : K) where
  -- No active row has the id, and no cached one.
  abbrev IsOut : KeyRow K H S → Type 0
  IsOut r = (r.key_id ≢ key_id) ⊎ (r.is_active ≡ false)

  abbrev NotCached : List (H × (KeyRow K H S × ℕ)) → Type 0
  NotCached = All (λ e. e.1.0.key_id ≢ key_id)

  record IsGone (s : KeyStore K H S) : Type 0 where
    table : All IsOut s.rows
    cached : NotCached s.cache

  -- The answer is no key, or another one.
  abbrev pub IsOtherKey : Option (KeyRow K H S) → Type 0
  IsOtherKey none = Unit
  IsOtherKey (some r) = r.key_id ≢ key_id

  abbrev answers : Option (KeyRow K H S) → List (Option (KeyRow K H S))
  answers none = []
  answers (some r) = some r ∷ []

  find_active-IsOtherKey :
      (h : H) (rows : List (KeyRow K H S))
      → All IsOut rows
      → IsOtherKey (find_active dec_hash h rows)
  unfolding find_active
  find_active-IsOtherKey h [] a = tt
  find_active-IsOtherKey h (r ∷ rows) a =
      elim (Bool-cases (same dec_hash r.api_key_hash h && r.is_active)) [
        | inr skipped ↦ rw skipped (find_active-IsOtherKey h rows a.1)
        | inl found ↦ rw found (elim a.0 [
          | inl other ↦ other
          | inr inactive ↦ absurd (ground (arith, found, inactive))
        ])
      ]

  validate-IsOtherKey :
      (h : H) (now : ℕ) (rows : List (KeyRow K H S))
      → All IsOut rows
      → IsOtherKey (validate dec_hash h now rows)
  unfolding validate
  validate-IsOtherKey h now rows a = elim (Option-cases (find_active dec_hash h rows)) [
    | inl absent ↦ rw (absent, validate) tt
    | inr (r, found) ↦ elim (Bool-cases (has_expired r.expires_at now)) [
      | inl over ↦ rw (found, validate) (rw over tt)
      | inr valid ↦
          rw (found, validate) (rw valid (subst IsOtherKey found (find_active-IsOtherKey h rows a)))
    ]
  ]

  lookup-IsOtherKey :
      (h : H) (cache : List (H × (KeyRow K H S × ℕ))) (c : KeyRow K H S × ℕ)
      → NotCached cache
      → lookup dec_hash h cache ≡ some c
      → c.0.key_id ≢ key_id
  unfolding lookup
  lookup-IsOtherKey h [] c a e = absurd (ground (arith, e))
  lookup-IsOtherKey h (x ∷ cache) c a e = elim (dec_hash x.0 h) [
    | yes here ↦
        let same_entry : x.1 ≡ c = ground (arith, e, here) in
        subst (λ (y : KeyRow K H S × ℕ). y.0.key_id ≢ key_id) same_entry a.0
    | no other ↦ lookup-IsOtherKey h cache c a.1 (ground (arith, e, other))
  ]

  delete-NotCached :
      (h : H) (cache : List (H × (KeyRow K H S × ℕ)))
      → NotCached cache
      → NotCached (delete dec_hash h cache)
  unfolding delete
  delete-NotCached h [] a = tt
  delete-NotCached h (x ∷ cache) a = elim (dec_hash x.0 h) [
    | yes here ↦ rw (if_pos _ here) a.1
    | no other ↦ rw (if_neg _ other) (a.0, delete-NotCached h cache a.1)
  ]

  assign-NotCached :
      (h : H) (c : KeyRow K H S × ℕ) (cache : List (H × (KeyRow K H S × ℕ)))
      → c.0.key_id ≢ key_id
      → NotCached cache
      → NotCached (assign dec_hash h c cache)
  unfolding assign
  assign-NotCached h c [] n a = (n, tt)
  assign-NotCached h c (x ∷ cache) n a = elim (dec_hash x.0 h) [
    | yes here ↦ rw (if_pos _ here) (n, a.1)
    | no other ↦ rw (if_neg _ other) (a.0, assign-NotCached h c cache n a.1)
  ]

  peek-IsGone :
      (s : KeyStore K H S) (h : H) (clock : ℕ)
      → IsGone s
      → IsGone (peek dec_hash s h clock).0
        × ((peek dec_hash s h clock).0.rows ≡ s.rows)
        × All IsOtherKey (answers (peek dec_hash s h clock).1)
  unfolding peek
  peek-IsGone s h clock g = elim (Option-cases (lookup dec_hash h s.cache)) [
    | inl absent ↦ rw (absent, peek) (g, refl, tt)
    | inr (c, there) ↦ elim (Bool-cases (ltb clock c.1)) [
      | inl fresh ↦
          rw (there, peek) (rw fresh (g, refl, (lookup-IsOtherKey h s.cache c g.cached there, tt)))
      | inr over ↦
          rw (there, peek)
            (rw over
              (record { table = g.table; cached = delete-NotCached h s.cache g.cached }, refl, tt))
    ]
  ]

  keep-IsGone :
      (s : KeyStore K H S) (h : H) (clock : ℕ) (v : Option (KeyRow K H S))
      → IsOtherKey v
      → IsGone s
      → IsGone (keep dec_hash s h clock v)
  keep-IsGone s h clock none o g = g
  keep-IsGone s h clock (some r) o g = record {
    table = g.table;
    cached = assign-NotCached h (r, clock + s.ttl) s.cache o g.cached;
  }

  validate_api_key-IsGone :
      (s : KeyStore K H S) (h : H) (clock now : ℕ)
      → IsGone s
      → IsGone (validate_api_key dec_hash s h clock now).0
        × IsOtherKey (validate_api_key dec_hash s h clock now).1
  unfolding validate_api_key
  validate_api_key-IsGone s h clock now g =
      let (after, rows, hit) = peek-IsGone s h clock g in
      let fresh = validate-IsOtherKey h now s.rows g.table in
      elim (Option-cases (peek dec_hash s h clock).1) [
        | inl miss ↦
            rw (miss, validate_api_key)
              (keep-IsGone _ h clock (validate dec_hash h now s.rows) fresh after, fresh)
        | inr (r, e) ↦
            rw (e, validate_api_key) (after, (subst (λ o. All IsOtherKey (answers o)) e hit).0)
      ]

  validate_all-All :
      (s : KeyStore K H S) (calls : List (H × ℕ × ℕ))
      → IsGone s
      → All IsOtherKey (validate_all dec_hash s calls)
  unfolding validate_all
  validate_all-All s [] g = tt
  validate_all-All s ((h, clock, now) ∷ calls) g =
      let (after, other) = validate_api_key-IsGone s h clock now g in
      (other, validate_all-All (validate_api_key dec_hash s h clock now).0 calls after)

  evict-NotCached : (cache : List (H × (KeyRow K H S × ℕ))) → NotCached (evict dec key_id cache)
  unfolding evict same
  evict-NotCached [] = tt
  evict-NotCached (e ∷ cache) = elim (dec e.1.0.key_id key_id) [
    | yes here ↦ rw (if_pos _ here) (evict-NotCached cache)
    | no other ↦ rw (if_neg _ other) (other, evict-NotCached cache)
  ]

  -- The rows with the id belong to the owner.
  abbrev pub IsOwned : K → KeyRow K H S → Type 0
  IsOwned owner_id r = (r.key_id ≢ key_id) ⊎ (r.owner_id ≡ owner_id)

  deactivate-All :
      (owner_id : K) (rows : List (KeyRow K H S))
      → All (IsOwned owner_id) rows
      → All IsOut (deactivate dec key_id owner_id rows)
  unfolding deactivate same
  deactivate-All owner_id [] a = tt
  deactivate-All owner_id (r ∷ rows) a = (
    elim (dec r.key_id key_id) [
      | no other ↦ ground (arith, other)
      | yes here ↦ elim a.0 [
        | inl other ↦ absurd (other here)
        | inr owned ↦ ground (arith, here, owned)
      ]
    ],
    deactivate-All owner_id rows a.1,
  )

  -- Once a key was revoked with the id of its owner, calls of `validate_api_key` in this process that come
  -- one after another from then on do not answer with that key, for whatever hashes and at whatever
  -- times, though it was cached before. No call was waiting for the database meanwhile.
  pub validate_all-revoke :
      (s : KeyStore K H S) (owner_id : K) (calls : List (H × ℕ × ℕ))
      → All (IsOwned owner_id) s.rows
      → All IsOtherKey (validate_all dec_hash (revoke_api_key dec s key_id owner_id).0 calls)
  unfolding revoke_api_key
  validate_all-revoke s owner_id calls owned =
      validate_all-All (revoke_api_key dec s key_id owner_id).0 calls
        (record { table = deactivate-All owner_id s.rows owned; cached = evict-NotCached s.cache })

  deactivate_none :
      (owner_id : K) (rows : List (KeyRow K H S))
      → All (λ r. (r.key_id ≢ key_id) ⊎ (r.owner_id ≢ owner_id)) rows
      → deactivate dec key_id owner_id rows ≡ rows
  unfolding deactivate same
  deactivate_none owner_id [] a = refl
  deactivate_none owner_id (r ∷ rows) a =
      let rest = deactivate_none owner_id rows a.1 in
      elim a.0 [
        | inl other ↦ ground (arith, other, rest)
        | inr stranger ↦ ground (arith, stranger, rest)
      ]

  -- If the key is not there, or is not the caller's, `revoke_api_key` still answers true, though no row of
  -- the table has changed.
  revoke_api_key-rows :
      (s : KeyStore K H S) (owner_id : K)
      → All (λ r. (r.key_id ≢ key_id) ⊎ (r.owner_id ≢ owner_id)) s.rows
      → ((revoke_api_key dec s key_id owner_id).1 ≡ true)
        × ((revoke_api_key dec s key_id owner_id).0.rows ≡ s.rows)
  unfolding revoke_api_key
  revoke_api_key-rows s owner_id a = (refl, deactivate_none owner_id s.rows a)
