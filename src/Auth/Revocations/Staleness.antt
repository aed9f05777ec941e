-- ===== src/Auth/Revocations/Staleness.antt =====
-- How old the answer of `get_revoked_before` in core/auth/shared_state.py may be.
use salesinfo_api_v.Base.{
  ℕ, ◌+◌, ◌≤◌, ◌≡◌, ◌≢◌, refl, sym, arith, ltb, ◌⊎◌, inl, inr, List, [], ◌∷◌, Option, none, some,
  All, subst, Bool-cases, Option-cases,
}
use salesinfo_api_v.Base.Dict.{
  lookup, assign, delete, lookup-assign, lookup-delete_ne, IsDict, Absent-delete_self,
  lookup_of_Absent, delete-IsDict, assign-IsDict,
}
use salesinfo_api_v.Auth.Revocations.{
  Revocations, Event, gets, sets, sets_elsewhere, peek, fill, get_revoked_before, store,
  set_revoked_before, step, run,
}

-- A cached answer is the value `at`, or it is over at the time `bound`.
abbrev pub Settles : ℕ → ℕ → Option (Option ℕ × ℕ) → Type 0
Settles at bound none = Unit
Settles at bound (some cached) = (cached.0 ≡ some at) ⊎ (cached.1 ≤ bound)

-- No write for the user.
abbrev pub IsOther : {K : Type 0} → K → Event K → Type 0
IsOther user_id (gets j now later) = Unit
IsOther user_id (sets j at now) = j ≢ user_id
IsOther user_id (sets_elsewhere j at) = j ≢ user_id

module _ {K : Type 0} (dec : Discrete K) where
  -- The table has the value, and the cache has it too or will soon ask.
  pub record Knows (k : K) (at bound : ℕ) (r : Revocations K) : Type 0 where
    pub stored : lookup dec k r.table ≡ some at
    pub cached : Settles at bound (lookup dec k r.cache)
    pub unique : IsDict r.cache

  assign_settles :
      (k j : K) (at bound : ℕ) (c : Option ℕ × ℕ) (cache : List (K × (Option ℕ × ℕ)))
      → Settles at bound (lookup dec k cache)
      → (j ≢ k) ⊎ (c.0 ≡ some at)
      → Settles at bound (lookup dec k (assign dec j c cache))
  assign_settles k j at bound c cache h n = elim (dec j k) [
    | yes same ↦
        let there : lookup dec k (assign dec j c cache) ≡ some c =
          ground (arith, same, lookup-assign dec j k c cache) in
        subst (Settles at bound) (sym there)
          (elim n [ inl other ↦ absurd (other same) | inr value ↦ inl value ])
    | no other ↦
        let there : lookup dec k (assign dec j c cache) ≡ lookup dec k cache =
          ground (arith, other, lookup-assign dec j k c cache) in
        subst (Settles at bound) (sym there) h
  ]

  delete_settles :
      (k j : K) (at bound : ℕ) (cache : List (K × (Option ℕ × ℕ)))
      → IsDict cache
      → Settles at bound (lookup dec k cache)
      → Settles at bound (lookup dec k (delete dec j cache))
  delete_settles k j at bound cache d h = elim (dec j k) [
    | yes same ↦
        let gone = lookup_of_Absent dec j (delete dec j cache) (Absent-delete_self dec j cache d) in
        subst (λ i. Settles at bound (lookup dec i (delete dec j cache))) same
          (subst (Settles at bound) (sym gone) tt)
    | no other ↦ subst (Settles at bound) (sym (lookup-delete_ne dec j k cache other)) h
  ]

  fill-Knows :
      (k j : K) (at bound now : ℕ) (value : Option ℕ) (r : Revocations K)
      → (j ≢ k) ⊎ (value ≡ some at)
      → Knows k at bound r
      → Knows k at bound (fill dec r j value now)
  unfolding fill
  fill-Knows k j at bound now value r n h = record {
    stored = h.stored;
    cached = assign_settles k j at bound (value, now + r.ttl) r.cache h.cached n;
    unique = assign-IsDict dec j (value, now + r.ttl) r.cache h.unique;
  }

  peek-Knows :
      (k j : K) (at bound now : ℕ) (r : Revocations K)
      → Knows k at bound r
      → Knows k at bound (peek dec r j now).0
  unfolding peek
  peek-Knows k j at bound now r h = elim (Option-cases (lookup dec j r.cache)) [
    | inl absent ↦ rw (absent, peek) h
    | inr (c, there) ↦ elim (Bool-cases (ltb now c.1)) [
      | inl fresh ↦ rw (there, peek) (rw fresh h)
      | inr over ↦
          rw (there, peek)
            (rw over (record {
              stored = h.stored;
              cached = delete_settles k j at bound r.cache h.unique h.cached;
              unique = delete-IsDict dec j r.cache h.unique;
            }))
    ]
  ]

  peek-table : (j : K) (now : ℕ) (r : Revocations K) → (peek dec r j now).0.table ≡ r.table
  unfolding peek
  peek-table j now r = elim (Option-cases (lookup dec j r.cache)) [
    | inl absent ↦ rw (absent, peek) refl
    | inr (c, there) ↦ elim (Bool-cases (ltb now c.1)) [
      | inl fresh ↦ rw (there, peek) (rw fresh refl)
      | inr over ↦ rw (there, peek) (rw over refl)
    ]
  ]

  get-Knows :
      (k j : K) (at bound now later : ℕ) (r : Revocations K)
      → Knows k at bound r
      → Knows k at bound (get_revoked_before dec r j now later).0
  unfolding get_revoked_before
  get-Knows k j at bound now later r h = elim (Option-cases (peek dec r j now).1) [
    | inr (v, hit) ↦ rw (hit, get_revoked_before) (peek-Knows k j at bound now r h)
    | inl miss ↦
        rw (miss, get_revoked_before)
          (fill-Knows k j at bound later (lookup dec j r.table) (peek dec r j now).0
            (elim (dec j k) [
              | yes same ↦ inr (subst (λ i. lookup dec i r.table ≡ some at) (sym same) h.stored)
              | no other ↦ inl other
            ])
            (peek-Knows k j at bound now r h))
  ]

  store-Knows :
      (k j : K) (at bound a : ℕ) (r : Revocations K)
      → j ≢ k
      → Knows k at bound r
      → Knows k at bound (store dec r j a)
  unfolding store
  store-Knows k j at bound a r n h = record {
    stored = ground (arith, n, h.stored, lookup-assign dec j k a r.table);
    cached = h.cached;
    unique = h.unique;
  }

  run-Knows :
      (k : K) (at bound : ℕ) (events : List (Event K)) (r : Revocations K)
      → All (IsOther k) events
      → Knows k at bound r
      → Knows k at bound (run dec r events)
  unfolding run step set_revoked_before
  run-Knows k at bound [] r a h = h
  run-Knows k at bound (gets j now later ∷ events) r a h =
      run-Knows k at bound events _ a.1 (get-Knows k j at bound now later r h)
  run-Knows k at bound (sets j value now ∷ events) r a h = run-Knows k at bound events _ a.1 (
      fill-Knows k j at bound now (some value) (store dec r j value) (inl a.0)
        (store-Knows k j at bound value r a.0 h))
  run-Knows k at bound (sets_elsewhere j value ∷ events) r a h =
      run-Knows k at bound events _ a.1 (store-Knows k j at bound value r a.0 h)

  answer :
      (k : K) (at bound now later : ℕ) (r : Revocations K) (slot : Option (Option ℕ × ℕ))
      → lookup dec k r.cache ≡ slot
      → bound ≤ now
      → Knows k at bound r
      → (get_revoked_before dec r k now later).1 ≡ some at
  unfolding get_revoked_before peek
  answer k at bound now later r none e le h = rw (e, get_revoked_before) h.stored
  answer k at bound now later r (some c) e le h = elim (Bool-cases (ltb now c.1)) [
    | inr over ↦ rw (e, get_revoked_before) (rw over h.stored)
    | inl fresh ↦
        let value : c.0 ≡ some at = elim (subst (Settles at bound) e h.cached) [
          | inl same ↦ same
          | inr early ↦ absurd (ground (arith, early, fresh, le))
        ] in
        rw (e, get_revoked_before) (rw fresh value)
  ]

  -- Once another process has written that a user's tokens are revoked before `at`, this process answers
  -- `at` as soon as what it had in its cache for the user is over, whatever reads and whatever writes for
  -- other users come in between.
  pub get_revoked_before-store :
      (r : Revocations K) (k : K) (at bound now later : ℕ) (events : List (Event K))
      → IsDict r.cache
      → Settles at bound (lookup dec k r.cache)
      → All (IsOther k) events
      → bound ≤ now
      → (get_revoked_before dec (run dec (store dec r k at) events) k now later).1 ≡ some at
  unfolding store
  get_revoked_before-store r k at bound now later events d h a le =
      answer k at bound now later (run dec (store dec r k at) events) _ refl le (
        run-Knows k at bound events (store dec r k at) a (record {
          stored = ground (arith, lookup-assign dec k k at r.table);
          cached = h;
          unique = d;
        }))

  -- After `set_revoked_before` in this process the answer is the new one at once.
  get_revoked_before-set :
      (r : Revocations K) (k : K) (at set_at now later : ℕ) (events : List (Event K))
      → IsDict r.cache
      → All (IsOther k) events
      → (get_revoked_before dec
          (run dec (set_revoked_before dec r k at set_at) events)
          k
          now
          later).1
        ≡ some at
  unfolding set_revoked_before store fill
  get_revoked_before-set r k at set_at now later events d a =
      let there : lookup dec k (assign dec k (some at, set_at + r.ttl) r.cache)
          ≡ some (some at, set_at + r.ttl) =
        ground (arith, lookup-assign dec k k (some at, set_at + r.ttl) r.cache) in
      answer k at 0 now later (run dec (set_revoked_before dec r k at set_at) events) _ refl
        (omega arith)
        (run-Knows k at 0 events (set_revoked_before dec r k at set_at) a (record {
          stored = ground (arith, lookup-assign dec k k at r.table);
          cached = subst (Settles at 0) (sym there) (inl refl);
          unique = assign-IsDict dec k (some at, set_at + r.ttl) r.cache d;
        }))
