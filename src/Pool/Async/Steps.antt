-- ===== src/Pool/Async/Steps.antt =====
-- What coroutines do to the asynchronous pool, one uninterrupted section at a time, in any order,
-- and what holds after every such history.
use salesinfo_api_v.Base.{
  ℕ, ◌++◌, ◌≤◌, ◌≡◌, ◌≢◌, refl, Bool, true, false, arith, ltb, ltb→lt, ap, List, [], ◌∷◌, Option,
  none, some, length, append_assoc, subst, All, inl, inr, Bool-cases, ℕ_discrete,
}
use salesinfo_api_v.Base.Dict.{lookup, Absent}
use salesinfo_api_v.Pool.Adaptive.{AdaptiveSizer, IsSized, adjust-IsSized, init-IsSized}
use salesinfo_api_v.Pool.Adaptive
use salesinfo_api_v.Performance.Histogram.{Histogram}
use salesinfo_api_v.Pool.Connections.{PoolConnection, Idle, recent_average}
use salesinfo_api_v.Pool.Slots.{
  Holds, take_idle-Holds, fill-Holds, delete-Holds, put_back-Holds, replace-Holds, none_left-Holds,
}
use salesinfo_api_v.Pool.Async.{
  no_idle, init, AsyncConnectionPool, request, attempt, create_failed, created, cancelled,
  timed_out, release, discard, record_acquire, wake, resize, close_all,
}
use salesinfo_api_v.Pool.Async.Line.{IsLine, append-IsLine, removed-IsLine, wake-IsLine}

-- `id` of a live object is not the number of any other: of no slot and of no idle connection.
abbrev pub IsFresh : ℕ → AsyncConnectionPool → Type 0
IsFresh k p = Absent k p.in_use × All (λ e. e.conn ≢ k) p.available

-- An event that no coroutine has waited on yet.
abbrev pub IsNewEvent : ℕ → AsyncConnectionPool → Type 0
IsNewEvent event p = All (λ w. w ≢ event) (p.woken ++ p.waiters)

-- No connection is being created: no slot is a reservation.
abbrev pub IsSettled : AsyncConnectionPool → Type 0
IsSettled p = All (λ e. e.1 ≢ none) p.in_use

-- Any coroutine may take any of these steps next. A creation ends only under its reservation, and the pool
-- is closed only while none goes on. A `release` is one step, or stops in the close of a broken connection
-- and goes on later, if it is not cancelled there.
pub data Step (p : AsyncConnectionPool) : AsyncConnectionPool → Type 0 where
  requests : Step p (request p)
  attempts :
      (start now key event : ℕ)
      → IsFresh key p
      → IsNewEvent event p
      → Step p (attempt p start now key event).0
  cancels : (event : ℕ) → Step p (cancelled p event)
  times_out : (event start now : ℕ) → Step p (timed_out p event start now)
  fails : (key : ℕ) → lookup ℕ_discrete key p.in_use ≡ some none → Step p (create_failed p key)
  creates :
      (key conn start elapsed now : ℕ)
      → lookup ℕ_discrete key p.in_use ≡ some none
      → IsFresh conn p
      → Step p (created p key conn start elapsed now)
  releases : (conn : ℕ) (is_broken : Bool) → Step p (release p conn is_broken)
  discards : (conn : ℕ) → Step p (discard p conn)
  wakes : Step p (wake p)
  measures : Step p (resize p)
  closes : IsSettled p → Step p (close_all p).0

pub data Reach (p : AsyncConnectionPool) : AsyncConnectionPool → Type 0 where
  here : Reach p p
  next : {q r : AsyncConnectionPool} → Reach p q → Step q r → Reach p r

-- Connections and slots are consistent, and no event stands twice among those woken and in line.
pub record IsSound (lo hi : ℕ) (p : AsyncConnectionPool) : Type 0 where
  pub pool : Holds lo hi p.sizer p.available p.in_use
  pub line : IsLine (p.woken ++ p.waiters)

module _ (lo hi : ℕ) where
  no_idle-IsSound :
      (p : AsyncConnectionPool) (key event : ℕ)
      → p.available ≡ []
      → IsFresh key p
      → IsNewEvent event p
      → IsSound lo hi p
      → IsSound lo hi (no_idle p key event).0
  no_idle-IsSound p key event e f n h = elim (Bool-cases (ltb (length p.in_use) p.sizer.current)) [
    | inl room ↦ rw room (record {
      pool =
          fill-Holds lo hi p.sizer p.available p.in_use key none f.0 f.1
            (omega (arith, h.pool.fits, h.pool.sized.below, ap length e, ltb→lt _ _ room)) h.pool;
      line = h.line;
    })
    | inr full ↦ rw full (record {
      pool = h.pool;
      line =
          subst IsLine (append_assoc p.woken p.waiters (event ∷ []))
            (append-IsLine event (p.woken ++ p.waiters) n h.line);
    })
  ]

  attempt-IsSound :
      (p : AsyncConnectionPool) (start now key event : ℕ) (idle : List Idle)
      → p.available ≡ idle
      → IsFresh key p
      → IsNewEvent event p
      → IsSound lo hi p
      → IsSound lo hi (attempt p start now key event).0
  unfolding attempt record_acquire
  attempt-IsSound p start now key event [] e f n h =
      rw (e, attempt) (no_idle-IsSound p key event e f n h)
  attempt-IsSound p start now key event (x ∷ xs) e f n h =
      rw (e, attempt)
        (record {
          pool = take_idle-Holds lo hi p.sizer x xs p.in_use _ (rw e at h.pool);
          line = h.line;
        })

  wake-IsSound :
      (p : AsyncConnectionPool) (line : List ℕ)
      → p.waiters ≡ line
      → IsSound lo hi p
      → IsSound lo hi (wake p)
  unfolding wake
  wake-IsSound p [] e h = rw (e, wake) h
  wake-IsSound p (w ∷ ws) e h =
      rw (e, wake) (record { pool = h.pool; line = wake-IsLine w p.woken ws (rw e at h.line) })

  release_slot-IsSound :
      (p : AsyncConnectionPool) (conn : ℕ) (is_broken : Bool)
      (slot : Option (Option PoolConnection))
      → lookup ℕ_discrete conn p.in_use ≡ slot
      → IsSound lo hi p
      → IsSound lo hi (release p conn is_broken)
  unfolding release
  release_slot-IsSound p conn is_broken none e h = rw (e, release) h
  release_slot-IsSound p conn is_broken (some none) e h =
      rw (e, release)
        (record {
          pool = delete-Holds lo hi p.sizer p.available p.in_use conn h.pool;
          line = h.line;
        })
  release_slot-IsSound p conn true (some (some pc)) e h =
      rw (e, release)
        (wake-IsSound _ _ refl (record {
          pool = delete-Holds lo hi p.sizer p.available p.in_use conn h.pool;
          line = h.line;
        }))
  release_slot-IsSound p conn false (some (some pc)) e h =
      rw (e, release)
        (wake-IsSound _ _ refl (record {
          pool = put_back-Holds lo hi p.sizer p.available p.in_use _ (some pc) e h.pool;
          line = h.line;
        }))

  discard_slot-IsSound :
      (p : AsyncConnectionPool) (conn : ℕ) (slot : Option (Option PoolConnection))
      → lookup ℕ_discrete conn p.in_use ≡ slot
      → IsSound lo hi p
      → IsSound lo hi (discard p conn)
  unfolding discard
  discard_slot-IsSound p conn none e h = rw (e, discard) h
  discard_slot-IsSound p conn (some none) e h =
      rw (e, discard)
        (record {
          pool = delete-Holds lo hi p.sizer p.available p.in_use conn h.pool;
          line = h.line;
        })
  discard_slot-IsSound p conn (some (some pc)) e h =
      rw (e, discard)
        (record {
          pool = delete-Holds lo hi p.sizer p.available p.in_use conn h.pool;
          line = h.line;
        })

  -- Every step of every coroutine keeps the pool consistent.
  pub Step-IsSound : {p q : AsyncConnectionPool} → Step p q → IsSound lo hi p → IsSound lo hi q
  unfolding request create_failed created cancelled timed_out resize record_acquire close_all
  Step-IsSound requests h = record { pool = h.pool; line = h.line }
  Step-IsSound {p} (attempts start now key event f n) h =
      attempt-IsSound p start now key event p.available refl f n h
  Step-IsSound {p} (cancels event) h = record {
    pool = h.pool;
    line = removed-IsLine event p.woken p.waiters h.line;
  }
  Step-IsSound {p} (times_out event start now) h = record {
    pool = h.pool;
    line = removed-IsLine event p.woken p.waiters h.line;
  }
  Step-IsSound {p} (fails key e) h = record {
    pool = delete-Holds lo hi p.sizer p.available p.in_use key h.pool;
    line = h.line;
  }
  Step-IsSound {p} (creates key conn start elapsed now e f) h = record {
    pool = replace-Holds lo hi p.sizer p.available p.in_use key conn _ e f.0 f.1 h.pool;
    line = h.line;
  }
  Step-IsSound {p} (releases conn is_broken) h = release_slot-IsSound p conn is_broken _ refl h
  Step-IsSound {p} (discards conn) h = discard_slot-IsSound p conn _ refl h
  Step-IsSound {p} wakes h = wake-IsSound p _ refl h
  Step-IsSound {p} measures h = record {
    pool = record {
      sized =
          adjust-IsSized lo hi p.sizer (length p.waiters) (recent_average p.recent_waits)
            h.pool.sized;
      slots = h.pool.slots;
      fits = h.pool.fits;
      distinct = h.pool.distinct;
      apart = h.pool.apart;
      ordered = h.pool.ordered;
    };
    line = h.line;
  }
  Step-IsSound (closes settled) h = record {
    pool = none_left-Holds lo hi _ h.pool.sized;
    line = h.line;
  }

  pub Reach-IsSound : {p q : AsyncConnectionPool} → IsSound lo hi p → Reach p q → IsSound lo hi q
  Reach-IsSound h here = h
  Reach-IsSound h (next r st) = Step-IsSound st (Reach-IsSound h r)

  init-IsSound :
      (sizer : AdaptiveSizer) (timeout : ℕ) (h : Option Histogram)
      → IsSized lo hi sizer
      → IsSound lo hi (init sizer timeout h)
  unfolding init
  init-IsSound sizer timeout h v = record { pool = none_left-Holds lo hi sizer v; line = tt }

-- Whatever any number of coroutines do with a new pool, in any order, cancellations and timeouts included,
-- also in the close of a broken connection, except that they close the pool only while no connection is
-- being created: its connections and its reservations together never exceed the ceiling, no connection is
-- idle twice or both idle and in use, the slots are a dictionary, the heap is in order, the size stays
-- within its limits, and no event is woken twice, stands in line twice, or is in line once woken.
pub Reach-async-IsSound :
    (lo hi timeout : ℕ) (h : Option Histogram) (p : AsyncConnectionPool)
    → lo ≤ hi
    → Reach (init (Adaptive.init lo hi) timeout h) p
    → IsSound lo hi p
Reach-async-IsSound lo hi timeout h p le r =
    Reach-IsSound lo hi (init-IsSound lo hi (Adaptive.init lo hi) timeout h (init-IsSized lo hi le))
      r
