-- ===== src/Caching/Coordinator/Flights.antt =====
-- Single flight: the registry of futures in `get_or_execute` of
-- core/caching/query_cache_coordinator.py, while callers come and leaders finish in any order.
use salesinfo_api_v.Base.{
  ℕ, ◌≡◌, ◌≢◌, refl, arith, true, false, inl, inr, List, [], ◌∷◌, some, All, ◌∙◌, ap, Option-cases,
}
use salesinfo_api_v.Base.Dict.{lookup, lookup-assign, lookup-delete_ne}
use salesinfo_api_v.Caching.Coordinator.{join, leave}

-- A caller with its new future, or a leader that finishes.
pub data Event (K : Type 0) : Type 0 where
  joins leaves : K → ℕ → Event K

module _ {K : Type 0} (dec : Discrete K) where
  unfoldable pub after : List (K × ℕ) → List (Event K) → List (K × ℕ)
  after inflight [] = inflight
  after inflight (joins key future ∷ events) = after (join dec inflight key future).0 events
  after inflight (leaves key future ∷ events) = after (leave dec inflight key future) events

  -- The event is not the end of this flight.
  abbrev pub IsOther : ℕ → Event K → Type 0
  IsOther flight (joins key future) = Unit
  IsOther flight (leaves key future) = future ≢ flight

  join_kept :
      (inflight : List (K × ℕ)) (k key : K) (flight future : ℕ)
      → lookup dec k inflight ≡ some flight
      → lookup dec k (join dec inflight key future).0 ≡ some flight
  unfolding join
  join_kept inflight k key flight future h = elim (Option-cases (lookup dec key inflight)) [
    | inl absent ↦
        rw (absent, join)
          (elim (dec key k) [
            | yes same ↦ absurd (ground (arith, h, absent, ap (λ j. lookup dec j inflight) same))
            | no other ↦ ground (arith, h, lookup-assign dec key k future inflight)
          ])
    | inr (known, e) ↦ rw (e, join) h
  ]

  leave_kept :
      (inflight : List (K × ℕ)) (k key : K) (flight future : ℕ)
      → future ≢ flight
      → lookup dec k inflight ≡ some flight
      → lookup dec k (leave dec inflight key future) ≡ some flight
  unfolding leave
  leave_kept inflight k key flight future n h = elim (dec key k) [
    | yes same ↦
        let there : lookup dec key inflight ≡ some flight =
          ap (λ j. lookup dec j inflight) same ∙ h in
        rw (there, leave) (ground (arith, n, h))
    | no other ↦ elim (Option-cases (lookup dec key inflight)) [
      | inl absent ↦ rw (absent, leave) h
      | inr (known, e) ↦
          rw (e, leave) (ground (arith, h, other, lookup-delete_ne dec key k inflight))
    ]
  ]

  after_kept :
      (inflight : List (K × ℕ)) (k : K) (flight : ℕ) (events : List (Event K))
      → lookup dec k inflight ≡ some flight
      → All (IsOther flight) events
      → lookup dec k (after inflight events) ≡ some flight
  unfolding after
  after_kept inflight k flight [] h a = h
  after_kept inflight k flight (joins key future ∷ events) h a =
      after_kept (join dec inflight key future).0 k flight events
        (join_kept inflight k key flight future h) a.1
  after_kept inflight k flight (leaves key future ∷ events) h a =
      after_kept (leave dec inflight key future) k flight events
        (leave_kept inflight k key flight future a.0 h) a.1

  led :
      (inflight : List (K × ℕ)) (k : K) (flight : ℕ)
      → (join dec inflight k flight).2 ≡ true
      → lookup dec k (join dec inflight k flight).0 ≡ some flight
  unfolding join
  led inflight k flight h = elim (Option-cases (lookup dec k inflight)) [
    | inl absent ↦ rw (absent, join) (ground (arith, lookup-assign dec k k flight inflight))
    | inr (known, e) ↦ absurd (ground (arith, rw (e, join) at h))
  ]

  -- While the leader of a key has not finished, whatever other callers and leaders do, every caller
  -- with the same key follows it: it gets the leader's future, is no leader, and leaves the
  -- registry as it is.
  pub join-follows :
      (inflight : List (K × ℕ)) (k : K) (flight future : ℕ) (events : List (Event K))
      → (join dec inflight k flight).2 ≡ true
      → All (IsOther flight) events
      → join dec (after (join dec inflight k flight).0 events) k future
        ≡ (after (join dec inflight k flight).0 events, flight, false)
  unfolding join
  join-follows inflight k flight future events h a =
      let there =
        after_kept (join dec inflight k flight).0 k flight events (led inflight k flight h) a in
      rw (there, join) refl
