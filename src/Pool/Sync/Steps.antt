-- ===== src/Pool/Sync/Steps.antt =====
-- What threads do to the pool, one section under the lock at a time, in any order, and what holds
-- after every such history.
use salesinfo_api_v.Base.{
  ℕ, ◌+◌, ◌≤◌, ◌≡◌, ◌≢◌, refl, Bool, true, false, arith, ltb, leb, ltb→lt, ap, List, [], ◌∷◌,
  Option, none, some, length, All, inl, inr, Bool-cases, ℕ_discrete,
}
use salesinfo_api_v.Base.Dict.{lookup, Absent}
use salesinfo_api_v.Pool.Adaptive.{AdaptiveSizer, IsSized, adjust-IsSized, init-IsSized}
use salesinfo_api_v.Pool.Adaptive
use salesinfo_api_v.Performance.Histogram.{Histogram}
use salesinfo_api_v.Pool.Connections.{PoolConnection, Idle, recent_average}
use salesinfo_api_v.Pool.Slots.{
  Holds, take_idle-Holds, fill-Holds, delete-Holds, put_back-Holds, replace-Holds, none_left-Holds,
}
use salesinfo_api_v.Pool.Sync.{
  no_idle, no_room, init, SyncConnectionPool, request, attempt, create_failed, created, leave,
  release, record_acquire, record_wait, close_all,
}
use salesinfo_api_v.Pool.Sync.Metrics.{metrics}

-- `id` of a live object is not the number of any other: of no slot and of no idle connection.
abbrev pub IsFresh : ℕ → SyncConnectionPool → Type 0
IsFresh k p = Absent k p.in_use × All (λ e. e.conn ≢ k) p.available

-- No connection is being created: no slot is a reservation.
abbrev pub IsSettled : SyncConnectionPool → Type 0
IsSettled p = All (λ e. e.1 ≢ none) p.in_use

-- Any thread may take any of these steps next. A creation ends only under its reservation, and the pool is
-- closed only while none goes on.
pub data Step (p : SyncConnectionPool) : SyncConnectionPool → Type 0 where
  requests : Step p (request p)
  attempts :
      (start now : ℕ) (counted : Bool) (key : ℕ)
      → IsFresh key p
      → Step p (attempt p start now counted key).0
  fails : (key : ℕ) → lookup ℕ_discrete key p.in_use ≡ some none → Step p (create_failed p key)
  creates :
      (key conn start create_start now : ℕ)
      → lookup ℕ_discrete key p.in_use ≡ some none
      → IsFresh conn p
      → Step p (created p key conn start create_start now)
  leaves : (counted : Bool) → Step p (leave p counted)
  releases : (conn : ℕ) (is_broken : Bool) → Step p (release p conn is_broken).0
  measures : Step p (metrics p).0
  closes : IsSettled p → Step p (close_all p).0

pub data Reach (p : SyncConnectionPool) : SyncConnectionPool → Type 0 where
  here : Reach p p
  next : {q r : SyncConnectionPool} → Reach p q → Step q r → Reach p r

abbrev pub IsSound : ℕ → ℕ → SyncConnectionPool → Type 0
IsSound lo hi p = Holds lo hi p.sizer p.available p.in_use

module _ (lo hi : ℕ) where
  no_room-IsSound :
      (p : SyncConnectionPool) (start now : ℕ) (counted : Bool)
      → IsSound lo hi p
      → IsSound lo hi (no_room p start now counted).0
  no_room-IsSound p start now true h = elim (Bool-cases (leb (start + p.timeout) now)) [
    | inl late ↦ rw late h
    | inr early ↦ rw early h
  ]
  no_room-IsSound p start now false h = elim (Bool-cases (leb (start + p.timeout) now)) [
    | inl late ↦ rw late h
    | inr early ↦ rw early h
  ]

  no_idle-IsSound :
      (p : SyncConnectionPool) (start now : ℕ) (counted : Bool) (key : ℕ)
      → p.available ≡ []
      → IsFresh key p
      → IsSound lo hi p
      → IsSound lo hi (no_idle p start now counted key).0
  no_idle-IsSound p start now counted key e f h =
      elim (Bool-cases (ltb (length p.in_use) p.sizer.current)) [
        | inl room ↦ rw room (
            fill-Holds lo hi p.sizer p.available p.in_use key none f.0 f.1
              (omega (arith, h.fits, h.sized.below, ap length e, ltb→lt _ _ room)) h)
        | inr full ↦ rw full (no_room-IsSound p start now counted h)
      ]

  attempt-IsSound :
      (p : SyncConnectionPool) (start now : ℕ) (counted : Bool) (key : ℕ) (idle : List Idle)
      → p.available ≡ idle
      → IsFresh key p
      → IsSound lo hi p
      → IsSound lo hi (attempt p start now counted key).0
  unfolding attempt record_acquire record_wait
  attempt-IsSound p start now counted key [] e f h =
      rw (e, attempt) (no_idle-IsSound p start now counted key e f h)
  attempt-IsSound p start now counted key (x ∷ xs) e f h =
      rw (e, attempt) (take_idle-Holds lo hi p.sizer x xs p.in_use _ (rw e at h))

  release_slot-IsSound :
      (p : SyncConnectionPool) (conn : ℕ) (is_broken : Bool) (slot : Option (Option PoolConnection))
      → lookup ℕ_discrete conn p.in_use ≡ slot
      → IsSound lo hi p
      → IsSound lo hi (release p conn is_broken).0
  unfolding release
  release_slot-IsSound p conn is_broken none e h = rw (e, release) h
  release_slot-IsSound p conn is_broken (some none) e h =
      rw (e, release) (delete-Holds lo hi p.sizer p.available p.in_use conn h)
  release_slot-IsSound p conn true (some (some pc)) e h =
      rw (e, release) (delete-Holds lo hi p.sizer p.available p.in_use conn h)
  release_slot-IsSound p conn false (some (some pc)) e h =
      rw (e, release) (put_back-Holds lo hi p.sizer p.available p.in_use _ (some pc) e h)

  release-IsSound :
      (p : SyncConnectionPool) (conn : ℕ) (is_broken : Bool)
      → IsSound lo hi p
      → IsSound lo hi (release p conn is_broken).0
  release-IsSound p conn is_broken h = release_slot-IsSound p conn is_broken _ refl h

  -- Every step of every thread keeps the pool consistent.
  pub Step-IsSound : {p q : SyncConnectionPool} → Step p q → IsSound lo hi p → IsSound lo hi q
  unfolding request create_failed created leave metrics record_acquire record_wait close_all
  Step-IsSound requests h = h
  Step-IsSound {p} (attempts start now counted key f) h =
      attempt-IsSound p start now counted key p.available refl f h
  Step-IsSound {p} (fails key e) h = delete-Holds lo hi p.sizer p.available p.in_use key h
  Step-IsSound {p} (creates key conn start create_start now e f) h =
      replace-Holds lo hi p.sizer p.available p.in_use key conn _ e f.0 f.1 h
  Step-IsSound {p} (leaves true) h = h
  Step-IsSound {p} (leaves false) h = h
  Step-IsSound {p} (releases conn is_broken) h = release-IsSound p conn is_broken h
  Step-IsSound {p} measures h = record {
    sized = adjust-IsSized lo hi p.sizer p.current_waiters (recent_average p.recent_waits) h.sized;
    slots = h.slots;
    fits = h.fits;
    distinct = h.distinct;
    apart = h.apart;
    ordered = h.ordered;
  }
  Step-IsSound (closes settled) h = none_left-Holds lo hi _ h.sized

  pub Reach-IsSound : {p q : SyncConnectionPool} → IsSound lo hi p → Reach p q → IsSound lo hi q
  Reach-IsSound h here = h
  Reach-IsSound h (next r st) = Step-IsSound st (Reach-IsSound h r)

  init-IsSound :
      (sizer : AdaptiveSizer) (timeout : ℕ) (h : Option Histogram)
      → IsSized lo hi sizer
      → IsSound lo hi (init sizer timeout h)
  unfolding init
  init-IsSound sizer timeout h v = none_left-Holds lo hi sizer v

-- Whatever any number of threads do with a new pool, in any order, except that they close it only while
-- no connection is being created: its connections and its reservations together never exceed the
-- ceiling, no connection is idle twice or both idle and in use, the slots are a dictionary, the heap is
-- in order, and the size stays within its limits.
pub Reach-init-IsSound :
    (lo hi timeout : ℕ) (h : Option Histogram) (p : SyncConnectionPool)
    → lo ≤ hi
    → Reach (init (Adaptive.init lo hi) timeout h) p
    → IsSound lo hi p
Reach-init-IsSound lo hi timeout h p le r =
    Reach-IsSound lo hi (init-IsSound lo hi (Adaptive.init lo hi) timeout h (init-IsSized lo hi le))
      r
