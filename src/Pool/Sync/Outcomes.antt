-- ===== src/Pool/Sync/Outcomes.antt =====
-- What single operations of the pool promise: which connection is lent, what a release and a
-- shutdown leave behind, and that the counters agree.
use salesinfo_api_v.Pool.Connections.Heap.{IsHeap}
use salesinfo_api_v.Base.{
  ◌⊎◌, suc, subst, ℕ, ◌+◌, ◌≤◌, ◌≡◌, ◌≢◌, refl, Bool, true, false, arith, List, [], ◌∷◌, none, some,
  All, ℕ_discrete, length,
}
use salesinfo_api_v.Base.Dict.{lookup, assign, delete, Absent, Absent-delete_self, lookup_of_Absent}
use salesinfo_api_v.Pool.Connections.{PoolConnection, Idle, before, checked_out}
use salesinfo_api_v.Pool.Slots.{idle-ne_of_lookup}
use salesinfo_api_v.Pool.Sync.{
  SyncConnectionPool, request, attempt, create_failed, created, leave, release, close_all,
  record_acquire, record_wait, got, reserved, waiting, timed_out,
}
use salesinfo_api_v.Pool.Sync.Metrics.{metrics}
use salesinfo_api_v.Pool.Sync.Steps.{
  Step, IsSound, requests, attempts, fails, creates, leaves, releases, measures, closes,
}

-- Every acquire that succeeded was a hit or a miss, and every miss created a connection.
pub record IsCounted (p : SyncConnectionPool) : Type 0 where
  pub acquired : p.successful_acquires ≡ p.hits + p.misses
  pub missed : p.misses ≡ p.connection_creation_count

attempt-IsCounted :
    (p : SyncConnectionPool) (start now : ℕ) (counted : Bool) (key : ℕ)
    → IsCounted p
    → IsCounted (attempt p start now counted key).0
unfolding attempt record_acquire record_wait
attempt-IsCounted p start now counted key v = ground arith

release-IsCounted :
    (p : SyncConnectionPool) (conn : ℕ) (is_broken : Bool)
    → IsCounted p
    → IsCounted (release p conn is_broken).0
unfolding release
release-IsCounted p conn is_broken v = ground arith

-- Every step of every thread keeps the counters of acquires, hits, misses and creations in
-- agreement.
Step-IsCounted : {p q : SyncConnectionPool} → Step p q → IsCounted p → IsCounted q
unfolding request create_failed created leave metrics record_acquire record_wait close_all
Step-IsCounted requests v = omega arith
Step-IsCounted {p} (attempts start now counted key f) v =
    attempt-IsCounted p start now counted key v
Step-IsCounted (fails key e) v = omega arith
Step-IsCounted (creates key conn start create_start now e f) v = omega arith
Step-IsCounted (leaves true) v = omega arith
Step-IsCounted (leaves false) v = omega arith
Step-IsCounted {p} (releases conn is_broken) v = release-IsCounted p conn is_broken v
Step-IsCounted measures v = omega arith
Step-IsCounted (closes settled) v = omega arith

-- While a connection is idle, an acquire takes one at once, whatever the limits: it takes the one
-- that no other idle connection was checked out before, counts a hit, and records the connection as
-- in use from now.
attempt_idle :
    (p : SyncConnectionPool) (start now : ℕ) (counted : Bool) (key lo hi : ℕ) (x : Idle)
    (xs : List Idle)
    → IsSound lo hi p
    → p.available ≡ x ∷ xs
    → ((attempt p start now counted key).1 ≡ got x.conn)
      × All (λ y. before y x ≡ false) xs
      × ((attempt p start now counted key).0.available ≡ xs)
      × ((attempt p start now counted key).0.in_use
          ≡ assign ℕ_discrete x.conn (some (checked_out x.conn now)) p.in_use)
      × ((attempt p start now counted key).0.hits ≡ p.hits + 1)
unfolding attempt record_acquire record_wait
attempt_idle p start now counted key lo hi x xs h e =
    let order = subst IsHeap e h.ordered in rw (e, attempt) (refl, order.0, refl, refl, refl)

-- With no idle connection an acquire reserves a slot exactly if fewer slots are taken than the
-- current size; else it times out exactly if its deadline is reached, and waits otherwise.
attempt-none :
    (p : SyncConnectionPool) (start now : ℕ) (counted : Bool) (key : ℕ)
    → p.available ≡ []
    → (((attempt p start now counted key).1 ≡ reserved)
        × (suc (length p.in_use) ≤ p.sizer.current)
        × ((attempt p start now counted key).0.in_use ≡ assign ℕ_discrete key none p.in_use))
      ⊎ ((attempt p start now counted key).1 ≡ timed_out)
        × (p.sizer.current ≤ length p.in_use)
        × (start + p.timeout ≤ now)
        × ((attempt p start now counted key).0.timeouts ≡ p.timeouts + 1)
        × ((attempt p start now counted key).0.in_use ≡ p.in_use)
      ⊎ ((attempt p start now counted key).1 ≡ waiting)
        × (p.sizer.current ≤ length p.in_use)
        × (suc now ≤ start + p.timeout)
        × ((attempt p start now counted key).0.in_use ≡ p.in_use)
unfolding attempt
attempt-none p start now counted key e = rw (e, attempt) (ground arith)

release_absent :
    (p : SyncConnectionPool) (conn : ℕ) (is_broken : Bool)
    → lookup ℕ_discrete conn p.in_use ≡ none
    → release p conn is_broken ≡ (p, false)
unfolding release
release_absent p conn is_broken e = rw (e, release)

-- A connection that is given back as broken is evicted: it has no slot, it is not idle, a waiting
-- thread is notified, and a second release of it changes nothing.
pub release_broken :
    (p : SyncConnectionPool) (conn lo hi : ℕ) (pc : PoolConnection)
    → IsSound lo hi p
    → lookup ℕ_discrete conn p.in_use ≡ some (some pc)
    → Absent conn (release p conn true).0.in_use
      × All (λ e. e.conn ≢ conn) (release p conn true).0.available
      × ((release p conn true).0.broken_evicted ≡ p.broken_evicted + 1)
      × ((release p conn true).1 ≡ true)
      × (release (release p conn true).0 conn false ≡ ((release p conn true).0, false))
unfolding release
release_broken p conn lo hi pc h e =
    let gone : Absent conn (release p conn true).0.in_use =
      rw (e, release) (Absent-delete_self ℕ_discrete conn p.in_use h.slots) in
    (
      gone,
      rw (e, release) (idle-ne_of_lookup conn (some pc) p.in_use p.available e h.apart),
      rw (e, release),
      rw (e, release),
      release_absent (release p conn true).0 conn false (lookup_of_Absent ℕ_discrete conn _ gone),
    )

-- Closing any pool empties its slots, and a thread that was creating a connection meanwhile then
-- adds it to the emptied pool, as the only one in use.
created-close_all :
    (p : SyncConnectionPool) (key conn start create_start now : ℕ)
    → ((close_all p).0.in_use ≡ [])
      × ((created (close_all p).0 key conn start create_start now).in_use
          ≡ (conn, some (checked_out conn now)) ∷ [])
unfolding created close_all record_acquire record_wait assign delete
created-close_all p key conn start create_start now = (refl, refl)
