-- ===== src/Tests/Pools.antt =====
-- The pools and the histogram of core/db/pool and core/performance at concrete inputs.
use salesinfo_api_v.Base.{ℕ, ◌≡◌, refl, true, false, arith, List, [], ◌∷◌, none, some, ℕ_discrete}
use salesinfo_api_v.Base.Dict.{lookup, assign, delete}
use salesinfo_api_v.Performance.Histogram
use salesinfo_api_v.Performance.Histogram.{Histogram, observe_all, cumulative_counts}
use salesinfo_api_v.Pool.Adaptive
use salesinfo_api_v.Pool.Adaptive.{
  AdaptiveSizer, Mean, IsSized, adjust, under_pressure, quiet, busy,
}
use salesinfo_api_v.Pool.Connections.{Idle, checked_out, heappush, push_recent}
use salesinfo_api_v.Pool.Sync
use salesinfo_api_v.Pool.Sync.{
  SyncConnectionPool, got, reserved, timed_out, waiting, attempt, created, release, close_all,
  request, record_acquire, record_wait,
}
use salesinfo_api_v.Pool.Sync.Steps.{
  Reach, here, next, attempts, creates, releases, IsSound, IsFresh, Reach-init-IsSound,
}
use salesinfo_api_v.Pool.Sync.Outcomes.{IsCounted, release_broken}

-- A sizer between 1 and 3, and the average of no waits.
abbrev small : AdaptiveSizer
small = record { min = 1; max = 3; current = 1; idle_streak = 0 }

abbrev calm : Mean
calm = record { total = 0; count = 1 }

small-IsSized : IsSized 1 3 small
small-IsSized = omega arith

-- Three values of 1 ns, 2 ms and 20 s against the default bounds.
abbrev fresh_histogram : Histogram
fresh_histogram = record {
  bucket_bounds = 500_000 ∷ 5_000_000 ∷ [];
  bucket_counts = 0 ∷ 0 ∷ 0 ∷ [];
  count = 0;
  total = 0;
  minimum = none;
  maximum = none;
}

abbrev values : List ℕ
values = 1_000_000 ∷ 2_000_000_000_000 ∷ 20_000_000_000_000 ∷ []

fresh-init : Histogram.init (500_000 ∷ 5_000_000 ∷ []) ≡ some fresh_histogram
unfolding Histogram.init Histogram.ascending
fresh-init = refl

counts_test : cumulative_counts (observe_all fresh_histogram values) ≡ 1 ∷ 2 ∷ 3 ∷ []
unfolding cumulative_counts observe_all Histogram.observe Histogram.running Histogram.bisect_left
    Histogram.bump
counts_test = refl

-- What the tests compute with.
code : Unit {0}
unfolding attempt created release Sync.init Adaptive.init record_acquire record_wait lookup assign
    delete heappush ℕ_discrete push_recent
code = tt

-- A pool in which a thread reserves slot 100, creates connection 7 and gives it back.
abbrev empty : SyncConnectionPool
empty = Sync.init (Adaptive.init 1 2) 30 none

abbrev one_reserved : SyncConnectionPool
one_reserved = (attempt empty 0 1 false 100).0

abbrev one_created : SyncConnectionPool
one_created = created one_reserved 100 7 0 1 4

abbrev one_idle : SyncConnectionPool
one_idle = (release one_created 7 false).0

idle_test : one_idle.available ≡ record { created_at = 4; counter = 0; conn = 7 } ∷ []
unfolding code
idle_test = refl

history : Reach empty one_idle
unfolding code
history =
    next
      (next (next here (attempts 0 1 false 100 (tt, tt)))
        (creates 100 7 0 1 4 refl ((omega arith, tt), tt)))
      (releases 7 false)

abbrev idle_entry : Idle
idle_entry = record { created_at = 4; counter = 0; conn = 7 }

Reach-init-IsSound_example : IsSound 1 2 one_idle
Reach-init-IsSound_example = Reach-init-IsSound 1 2 30 none one_idle (omega arith) history

created_history : Reach empty one_created
unfolding code
created_history =
    next (next here (attempts 0 1 false 100 (tt, tt)))
      (creates 100 7 0 1 4 refl ((omega arith, tt), tt))

one_created-IsSound : IsSound 1 2 one_created
one_created-IsSound = Reach-init-IsSound 1 2 30 none one_created (omega arith) created_history

created_slot : lookup ℕ_discrete 7 one_created.in_use ≡ some (some (checked_out 7 4))
unfolding code
created_slot = refl

release_broken_example : (release one_created 7 true).1 ≡ true
release_broken_example =
    (release_broken one_created 7 1 2 (checked_out 7 4) one_created-IsSound created_slot).3

created_available : one_created.available ≡ []
unfolding code
created_available = refl

timeout_test : (attempt one_created 0 30 false 101).1 ≡ timed_out
unfolding code
timeout_test = refl

empty-IsCounted : IsCounted empty
unfolding code
empty-IsCounted = omega arith

empty-IsFresh : IsFresh 100 empty
unfolding code
empty-IsFresh = (tt, tt)
