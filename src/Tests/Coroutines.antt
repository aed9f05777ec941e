-- ===== src/Tests/Coroutines.antt =====
-- The asynchronous pool of core/db/pool at concrete inputs.
use salesinfo_api_v.Base.{
  ◌≡◌, refl, true, arith, [], ◌∷◌, ◌++◌, none, some, length, ◌≤◌, ℕ_discrete,
}
use salesinfo_api_v.Base.Dict.{lookup, assign, delete}
use salesinfo_api_v.Pool.Adaptive
use salesinfo_api_v.Pool.Connections.{checked_out, heappush, push_recent}
use salesinfo_api_v.Pool.Async
use salesinfo_api_v.Pool.Async.{
  AsyncConnectionPool, attempt, created, create_failed, timed_out, release, discard, removed, wake,
  record_acquire, reserved, queued, got,
}
use salesinfo_api_v.Pool.Async.Steps.{
  Reach, here, next, attempts, creates, IsSound, Reach-async-IsSound,
}
use salesinfo_api_v.Pool.Async.Stranded.{release-timed_out, create_failed-attempt}

-- What the tests compute with.
code : Unit {0}
unfolding attempt created create_failed timed_out release discard removed wake Async.init
    Adaptive.init record_acquire lookup assign delete heappush ℕ_discrete push_recent
code = tt

abbrev empty : AsyncConnectionPool
empty = Async.init (Adaptive.init 1 2) 30 none

-- One coroutine creates connection 7 in the only slot, and two stand in line with events 50 and 51.
abbrev one_reserved : AsyncConnectionPool
one_reserved = (attempt empty 0 0 100 49).0

abbrev one_created : AsyncConnectionPool
one_created = created one_reserved 100 7 0 3 4

abbrev one_waits : AsyncConnectionPool
one_waits = (attempt one_created 5 5 101 50).0

abbrev two_wait : AsyncConnectionPool
two_wait = (attempt one_waits 6 6 102 51).0

history : Reach empty two_wait
unfolding code
history =
    next
      (next
        (next (next here (attempts 0 0 100 49 (tt, tt) tt))
          (creates 100 7 0 3 4 refl ((omega arith, tt), tt)))
        (attempts 5 5 101 50 ((omega arith, tt), tt) tt))
      (attempts 6 6 102 51 ((omega arith, tt), tt) (omega arith, tt))

Reach-async-IsSound_example : IsSound 1 2 two_wait
Reach-async-IsSound_example = Reach-async-IsSound 1 2 30 none two_wait (omega arith) history

line_test : two_wait.waiters ≡ 50 ∷ 51 ∷ []
unfolding code
line_test = refl

discard_test :
    ((discard two_wait 7).waiters ≡ 50 ∷ 51 ∷ [])
    × (lookup ℕ_discrete 7 (discard two_wait 7).in_use ≡ none)
    × ((discard two_wait 7).broken_evicted ≡ 1)
unfolding code
discard_test = (refl, refl, refl)

slot_test : lookup ℕ_discrete 7 two_wait.in_use ≡ some (some (checked_out 7 4))
unfolding code
slot_test = refl

release-timed_out_example :
    ((release (timed_out two_wait 50 5 35) 7 true).waiters ≡ [])
    × ((release (timed_out two_wait 50 5 35) 7 true).woken ≡ two_wait.woken ++ 51 ∷ [])
release-timed_out_example =
    release-timed_out two_wait 50 51 5 35 7 [] true (checked_out 7 4) line_test slot_test

-- The second coroutine waits while the first creates its connection, which fails.
abbrev stranded : AsyncConnectionPool
stranded = (attempt one_reserved 1 1 101 50).0

stranded_available : stranded.available ≡ []
unfolding code
stranded_available = refl

stranded_slot : lookup ℕ_discrete 100 stranded.in_use ≡ some none
unfolding code
stranded_slot = refl

stranded_fits : length stranded.in_use ≤ stranded.sizer.current
unfolding code
stranded_fits = omega arith

create_failed-attempt_example :
    ((create_failed stranded 100).waiters ≡ stranded.waiters)
    × ((create_failed stranded 100).woken ≡ stranded.woken)
    × ((attempt (create_failed stranded 100) 2 2 102 51).1 ≡ reserved)
create_failed-attempt_example =
    create_failed-attempt stranded 100 2 2 102 51 stranded_available stranded_fits stranded_slot

stranded_test : (create_failed stranded 100).waiters ≡ 50 ∷ []
unfolding code
stranded_test = refl
