-- ===== src/Pool/Async/Stranded.antt =====
-- Whom a release wakes, and who is left waiting: `release`, the handlers of `TimeoutError` and of a
-- failed creation in core/db/pool/async_pool.py.
use salesinfo_api_v.Base.{
  ℕ, ◌≤◌, ◌≡◌, refl, Bool, true, false, arith, List, [], ◌∷◌, ◌++◌, none, some, length, ℕ_discrete,
  suc, ◌∙◌, Bool-cases, inl, inr,
}
use salesinfo_api_v.Base.Dict.{lookup, length-delete}
use salesinfo_api_v.Pool.Connections.{PoolConnection, Idle, heappush, before}
use salesinfo_api_v.Pool.Async.{
  AsyncConnectionPool, attempt, create_failed, timed_out, release, wake, removed, reserved, got,
}

removed_self : (e : ℕ) (ws : List ℕ) → removed e (e ∷ ws) ≡ ws
unfolding removed
removed_self e ws = ground arith

wake_head :
    (p : AsyncConnectionPool) (w : ℕ) (ws : List ℕ)
    → p.waiters ≡ w ∷ ws
    → ((wake p).waiters ≡ ws) × ((wake p).woken ≡ p.woken ++ w ∷ [])
unfolding wake
wake_head p w ws e = rw (e, wake) (refl, refl)

timed_out-waiters :
    (p : AsyncConnectionPool) (e start now : ℕ) (ws : List ℕ)
    → p.waiters ≡ e ∷ ws
    → (timed_out p e start now).waiters ≡ ws
unfolding timed_out
timed_out-waiters p e start now ws q = rw (q, timed_out) (removed_self e ws)

-- If the coroutine that is first in line times out, the next release of a connection that is in
-- use, broken or not, wakes the coroutine behind it: the event that nobody awaits takes no wake-up.
pub release-timed_out :
    (p : AsyncConnectionPool) (e w start now conn : ℕ) (ws : List ℕ) (is_broken : Bool)
    (pc : PoolConnection)
    → p.waiters ≡ e ∷ w ∷ ws
    → lookup ℕ_discrete conn p.in_use ≡ some (some pc)
    → ((release (timed_out p e start now) conn is_broken).waiters ≡ ws)
      × ((release (timed_out p e start now) conn is_broken).woken ≡ p.woken ++ w ∷ [])
unfolding release timed_out
release-timed_out p e w start now conn ws true pc q held =
    rw (held, release) (wake_head _ w ws (timed_out-waiters p e start now (w ∷ ws) q))
release-timed_out p e w start now conn ws false pc q held =
    rw (held, release) (wake_head _ w ws (timed_out-waiters p e start now (w ∷ ws) q))

attempt-reserved :
    (p : AsyncConnectionPool) (start now key event : ℕ)
    → p.available ≡ []
    → suc (length p.in_use) ≤ p.sizer.current
    → (attempt p start now key event).1 ≡ reserved
unfolding attempt
attempt-reserved p start now key event e room = rw (e, attempt) (ground arith)

-- If no connection is idle and the slots fit the size, a creation that fails frees its slot and
-- wakes nobody: the line stays as it is, while the next coroutine that asks reserves a slot at
-- once.
pub create_failed-attempt :
    (p : AsyncConnectionPool) (key start now other event : ℕ)
    → p.available ≡ []
    → length p.in_use ≤ p.sizer.current
    → lookup ℕ_discrete key p.in_use ≡ some none
    → ((create_failed p key).waiters ≡ p.waiters)
      × ((create_failed p key).woken ≡ p.woken)
      × ((attempt (create_failed p key) start now other event).1 ≡ reserved)
unfolding create_failed
create_failed-attempt p key start now other event e fits held = (
  refl,
  refl,
  attempt-reserved (create_failed p key) start now other event e
      (omega (arith, fits, length-delete ℕ_discrete key p.in_use none held)),
)

wake-available :
    (p : AsyncConnectionPool) (line : List ℕ) → p.waiters ≡ line → (wake p).available ≡ p.available
unfolding wake
wake-available p [] e = rw (e, wake)
wake-available p (w ∷ ws) e = rw (e, wake)

heappush-cons :
    (e : Idle) (xs : List Idle) → (x : Idle) × (rest : List Idle) × (heappush e xs ≡ x ∷ rest)
unfolding heappush
heappush-cons e [] = (e, [], refl)
heappush-cons e (x ∷ xs) = elim (Bool-cases (before e x)) [
  | inl first ↦ (e, x ∷ xs, rw first)
  | inr later ↦ (x, heappush e xs, rw later)
]

attempt-got :
    (p : AsyncConnectionPool) (start now key event : ℕ) (x : Idle) (rest : List Idle)
    → p.available ≡ x ∷ rest
    → (attempt p start now key event).1 ≡ got x.conn
unfolding attempt
attempt-got p start now key event x rest e = rw (e, attempt)

-- After a connection that is in use was given back whole, the next coroutine that tries, woken or
-- new, gets an idle connection: it neither waits nor creates one.
attempt-release :
    (p : AsyncConnectionPool) (conn start now key event : ℕ) (pc : PoolConnection)
    → lookup ℕ_discrete conn p.in_use ≡ some (some pc)
    → (c : ℕ) × ((attempt (release p conn false) start now key event).1 ≡ got c)
unfolding release
attempt-release p conn start now key event pc held =
    let (x, rest, e) =
      heappush-cons (record { created_at = pc.created_at; counter = p.counter; conn = conn })
        p.available in
    (
      x.conn,
      rw (held, release) (attempt-got _ start now key event x rest (wake-available _ _ refl ∙ e)),
    )
