-- ===== src/Sessions/Store/Returned.antt =====
-- Connections that go back into the pool in a state in which no session may use them:
-- core/storage/application_state_store.py and core/performance/adapters/transactions.py, against
-- core/db/session.py.
use salesinfo_api_v.Base.{
  ℕ, ◌≡◌, refl, ◌∙◌, ap, Bool, true, false, [], some, String, ℕ_discrete, if_pos,
}
use salesinfo_api_v.Base.Dict.{lookup, Absent, IsDict, Absent-delete_self}
use salesinfo_api_v.Pool.Connections.{PoolConnection, heappush}
use salesinfo_api_v.Pool.Sync.{attempt, release, got}
use salesinfo_api_v.Sessions.{
  Driver, raised, is_connection_level_error, World, state, returned_to, after_block, leave_session,
  begin_transaction,
}
use salesinfo_api_v.Sessions.Transactions.{
  Block, Exit, done, failed, aborted, exit, run_block, run_all, ended, instrumented,
  instrumented_transaction,
}
use salesinfo_api_v.Sessions.Transactions.Atomic.{IsTransactional, run_all-keeps}
use salesinfo_api_v.Sessions.Store.{Request, handle, after_request}

module _ {C D : Type 0} where
  -- Where nothing else is idle, a connection that is given back as whole is lent next, as it is.
  lent_again :
      (w : World C D) (conn : ℕ) (pc : PoolConnection) (s : C × D)
      → lookup ℕ_discrete conn w.pool.in_use ≡ some (some pc)
      → w.pool.available ≡ []
      → (start now : ℕ) (counted : Bool) (key : ℕ)
      → ((attempt (returned_to w conn s false).pool start now counted key).1 ≡ got conn)
        × ((returned_to w conn s false).connections conn ≡ s.0)
  unfolding release attempt heappush
  lent_again w conn pc s e idle start now counted key = (
    rw (e, release) (rw (idle, heappush) refl),
    if_pos (ℕ_discrete conn conn) refl s.0 (w.connections conn),
  )

module _ {C D Q : Type 0} (d : Driver C D Q) (is_select : Q → Bool)
    (occurs_in : String → String → Bool) where
  -- An exception that says that the connection itself is dead leaves a block on a connection in use, and no
  -- other connection is idle. If the block ran in a session, the connection is evicted: it has no slot and
  -- nothing is idle. If it ran in a call of the application state store, whichever it was, the next
  -- `acquire` lends the same connection.
  pub handle-leave_session :
      (w : World C D) (conn : ℕ) (pc : PoolConnection) (text : String) (r : Request Q)
      → lookup ℕ_discrete conn w.pool.in_use ≡ some (some pc)
      → IsDict w.pool.in_use
      → w.pool.available ≡ []
      → is_connection_level_error occurs_in text ≡ true
      → (start now : ℕ) (counted : Bool) (key : ℕ)
      → Absent conn (leave_session d occurs_in w conn (raised text)).pool.in_use
        × ((leave_session d occurs_in w conn (raised text)).pool.available ≡ [])
        × ((attempt (handle d is_select r w conn).pool start now counted key).1 ≡ got conn)
  unfolding leave_session after_block handle release
  handle-leave_session w conn pc text r e slots idle dead start now counted key = (
    rw (dead, after_block)
        (rw (e, release) (Absent-delete_self ℕ_discrete conn w.pool.in_use slots)),
    rw (dead, after_block) (rw (e, release) idle),
    (lent_again w conn pc (after_request d is_select r (state w conn)) e idle start now counted
        key).0,
  )

module _ {C D Q : Type 0} (d : Driver C D Q) (view : C × D → D) (effect : Q → D → D)
    (law : IsTransactional d view effect) where
  ended_aborted : (r : (C × D) × Exit) → r.1 ≡ aborted → ended d r ≡ r
  ended_aborted (s, aborted) h = refl
  ended_aborted (s, done) h = cc
  ended_aborted (s, failed) h = cc

  -- If an instrumented transaction is cancelled or interrupted in its block, where no other connection is
  -- idle: the next `acquire` lends its connection, on which statements no longer commit themselves.
  pub instrumented_transaction-aborted :
      (b : Block Q) (w : World C D) (conn : ℕ) (pc : PoolConnection)
      → lookup ℕ_discrete conn w.pool.in_use ≡ some (some pc)
      → w.pool.available ≡ []
      → (begin_transaction d (state w conn)).1 ≡ true
      → (run_block d b (begin_transaction d (state w conn)).0).1 ≡ aborted
      → (start now : ℕ) (counted : Bool) (key : ℕ)
      → ((attempt (instrumented_transaction d b w conn).pool start now counted key).1 ≡ got conn)
        × (d.autocommit ((instrumented_transaction d b w conn).connections conn) ≡ false)
  unfolding instrumented_transaction instrumented begin_transaction run_block
  instrumented_transaction-aborted b w conn pc e idle begun ends start now counted key =
      let s = state w conn in
      let opened = (d.set_autocommit false s).0 in
      let off = law.set_mode false s begun in
      let kept = run_all-keeps d view effect law b.statements (exit b.ending) opened off in
      let left = (instrumented d b s).0 in
      let (lent, own) = lent_again w conn pc left e idle start now counted key in
      let last : left ≡ (run_all d b.statements (exit b.ending) opened).0 =
        rw (begun, instrumented)
          (ap (λ r. r.0) (ended_aborted (run_all d b.statements (exit b.ending) opened) ends)) in
      (lent, ap d.autocommit own ∙ ap (λ t. d.autocommit t.0) last ∙ kept.1)
