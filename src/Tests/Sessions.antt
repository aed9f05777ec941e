-- ===== src/Tests/Sessions.antt =====
-- Sessions and transactions of core/db/session.py and core/storage/application_state_store.py, over a
-- driver that keeps what a transaction has added.
use salesinfo_api_v.Base.{
  ℕ, ◌+◌, ◌≡◌, ◌≢◌, refl, ◌⊎◌, inl, ◌||◌, Bool, true, false, arith, ltb, ◌==◌, if◌then◌else◌, [],
  ◌∷◌, none, some, ℕ_discrete, String,
}
use salesinfo_api_v.Base.Dict.{lookup, assign, delete, IsDict, Absent}
use salesinfo_api_v.Pool.Adaptive
use salesinfo_api_v.Pool.Connections.{checked_out, heappush, push_recent}
use salesinfo_api_v.Pool.Sync
use salesinfo_api_v.Pool.Sync.{
  SyncConnectionPool, got, attempt, created, release, record_acquire, record_wait,
}
use salesinfo_api_v.Sessions.{
  Driver, World, state, returned, interrupted, raised, is_connection_level_error, any_occurs,
  leave_session, after_block, update, rollback_transaction, begin_transaction, commit_transaction,
}
use salesinfo_api_v.Sessions.Clean.{Sessions, here, next, acquires, connects, works, ends}
use salesinfo_api_v.Sessions.Transactions.{
  Statement, Block, done, aborted, run_all, run_block, instrumented, instrumented_transaction,
  transaction,
}
use salesinfo_api_v.Sessions.Transactions.Atomic.{IsTransactional, IsCommitted, transaction_lem}
use salesinfo_api_v.Sessions.Store.{transacts, handle, after_request}
use salesinfo_api_v.Sessions.Store.Returned.{handle-leave_session, instrumented_transaction-aborted}

-- The database is a sum, a statement adds to it, and 0 is a statement that fails, and the transaction with
-- it. A transaction is open if something is pending or it has failed.
record Conn : Type 0 where
  auto : Bool
  pending : ℕ
  failed : Bool

abbrev add : ℕ → Conn × ℕ → (Conn × ℕ) × Bool
add q s =
    if s.0.auto
    then (if q == 0 then (s, false) else ((s.0, s.1 + q), true))
    else if s.0.failed
    then (s, false)
    else if q == 0
    then ((record { auto = false; pending = s.0.pending; failed = true }, s.1), false)
    else ((record { auto = false; pending = s.0.pending + q; failed = false }, s.1), true)

abbrev is_open : Conn → Bool
is_open c = ltb 0 c.pending || c.failed

abbrev set_mode : Bool → Conn × ℕ → (Conn × ℕ) × Bool
set_mode b s =
    if is_open s.0
    then (s, false)
    else ((record { auto = b; pending = s.0.pending; failed = s.0.failed }, s.1), true)

abbrev ended_conn : Conn → Conn
ended_conn c = record { auto = c.auto; pending = 0; failed = false }

abbrev commit_sum : Conn × ℕ → (Conn × ℕ) × Bool
commit_sum s =
    if s.0.failed
    then ((ended_conn s.0, s.1), true)
    else ((ended_conn s.0, s.1 + s.0.pending), true)

abbrev sums : Driver Conn ℕ ℕ
sums = record {
  execute = add;
  commit = commit_sum;
  rollback = λ s. ((ended_conn s.0, s.1), true);
  set_autocommit = set_mode;
  in_transaction = is_open;
  autocommit = λ c. c.auto;
}

abbrev view : Conn × ℕ → ℕ
view s = s.1 + s.0.pending

abbrev effect : ℕ → ℕ → ℕ
effect q x = x + q

sums-execute_raised :
    (q : ℕ) (s : Conn × ℕ)
    → s.0.auto ≡ false
    → s.0.failed ≡ false
    → (add q s).1 ≡ false
    → ((add q s).0.0.failed ≡ true) ⊎ ((view (add q s).0 ≡ view s) × ((add q s).0.0.failed ≡ false))
sums-execute_raised q s off sound err = inl (ground (arith, off, sound, err))

sums-IsTransactional : IsTransactional sums view effect
sums-IsTransactional = record {
  doomed = λ c. c.failed;
  set_keeps = λ b s. ground arith;
  set_mode = λ b s ok. ground (arith, ok);
  set_view = λ s ok. ground (arith, ok);
  set_sound = λ s ok. ground (arith, ok);
  execute_keeps = λ q s off. ground (arith, off);
  execute_mode = λ q s. ground arith;
  execute_view =
      λ q s off sound ok. (ground (arith, off, sound, ok), ground (arith, off, sound, ok));
  execute_raised = sums-execute_raised;
  execute_doomed = λ q s off lost. ground (arith, off, lost);
  commit_view = λ s sound ok. ground (arith, sound);
  commit_doomed = λ s lost. ground (arith, lost);
  rollback_keeps = λ s. refl;
}

-- What the tests compute with.
code : Unit {0}
unfolding attempt created release Sync.init Adaptive.init record_acquire record_wait lookup assign
    delete heappush ℕ_discrete push_recent leave_session after_block rollback_transaction
    begin_transaction commit_transaction is_connection_level_error any_occurs run_all run_block
    instrumented instrumented_transaction transaction handle after_request
code = tt

abbrev plain : ℕ → Statement ℕ
plain q = record { query = q; caught = false }

abbrev both_statements : Block ℕ
both_statements = record { statements = plain 3 ∷ plain 4 ∷ []; ending = returned }

abbrev second_fails : Block ℕ
second_fails = record { statements = plain 3 ∷ plain 0 ∷ []; ending = returned }

-- The block catches what the second statement raises, and the transaction returns.
abbrev second_caught : Block ℕ
second_caught = record {
  statements = plain 3 ∷ record { query = 0; caught = true } ∷ [];
  ending = returned;
}

abbrev rested : Conn
rested = record { auto = true; pending = 0; failed = false }

transaction_test : transaction sums both_statements (rested, 10) ≡ ((rested, 17), done)
unfolding code
transaction_test = refl

fails_test : (transaction sums second_fails (rested, 10)).0 ≡ (rested, 10)
unfolding code
fails_test = refl

caught_test : transaction sums second_caught (rested, 10) ≡ ((rested, 10), done)
unfolding code
caught_test = refl

transaction_lem_example :
    ((transaction sums second_caught (rested, 10)).1 ≡ done
      → IsCommitted sums view effect sums-IsTransactional second_caught.statements
          (set_mode false (rested, 10)).0
          10
          (transaction sums second_caught (rested, 10)).0.1
        × ((transaction sums second_caught (rested, 10)).0.0.auto ≡ true))
    × ((run_block sums second_caught (set_mode false (rested, 10)).0).1 ≢ done
        → (transaction sums second_caught (rested, 10)).0.1 ≡ 10)
transaction_lem_example =
    transaction_lem sums view effect sums-IsTransactional second_caught (rested, 10)

abbrev dead : String
dead = "socket"

-- Every text occurs in every other, and no statement is a SELECT.
abbrev occurs : String → String → Bool
occurs a b = true

abbrev never_select : ℕ → Bool
never_select q = false

abbrev start : World Conn ℕ
start = record {
  pool = Sync.init (Adaptive.init 1 2) 5 none;
  connections = λ conn. rested;
  database = 0;
}

-- Connection 7 is created, its block opens a transaction and is interrupted.
abbrev reserved_slot : World Conn ℕ
reserved_slot = record start { pool = (attempt start.pool 0 0 false 100).0 }

abbrev held : World Conn ℕ
held = record reserved_slot {
  pool = created reserved_slot.pool 100 7 0 1 2;
  connections = update reserved_slot.connections 7 rested;
}

abbrev working : World Conn ℕ
working = record held {
  connections = update held.connections 7 (record { auto = false; pending = 5; failed = false });
  database = 0;
}

abbrev left : World Conn ℕ
left = leave_session sums occurs working 7 interrupted

held-7 : lookup ℕ_discrete 7 held.pool.in_use ≡ some (some (checked_out 7 2))
unfolding code
held-7 = refl

reserves-100 : lookup ℕ_discrete 100 reserved_slot.pool.in_use ≡ some none
unfolding code
reserves-100 = refl

interrupted-ne-returned : {A : Type 0} → interrupted ≡ returned → A
interrupted-ne-returned h = cc

run : Sessions sums start left
unfolding code
run =
    next
      (next
        (next (next here (acquires 0 0 false 100 (tt, tt)))
          (connects 100 7 0 1 2 rested reserves-100 ((λ e. absurd (omega (arith, e)), tt), tt)))
        (works 7 (checked_out 7 2) (record { auto = false; pending = 5; failed = false }, 0)
          held-7))
      (ends occurs 7 (checked_out 7 2) interrupted held-7 (λ e. interrupted-ne-returned e))

-- Connection 7 is in use and nothing is idle; the exception names a dead connection.
held-IsDict : IsDict held.pool.in_use
unfolding code
held-IsDict = (tt, tt)

held-none_idle : held.pool.available ≡ []
unfolding code
held-none_idle = refl

dead-is_connection_level_error : is_connection_level_error occurs dead ≡ true
unfolding code
dead-is_connection_level_error = refl

handle-leave_session_example :
    Absent 7 (leave_session sums occurs held 7 (raised dead)).pool.in_use
    × ((leave_session sums occurs held 7 (raised dead)).pool.available ≡ [])
    × ((attempt (handle sums never_select (transacts both_statements) held 7).pool 3 3 false 101).1
        ≡ got 7)
handle-leave_session_example =
    handle-leave_session sums never_select occurs held 7 (checked_out 7 2) dead
      (transacts both_statements) held-7 held-IsDict held-none_idle dead-is_connection_level_error 3
      3 false 101

abbrev cancelled_block : Block ℕ
cancelled_block = record { statements = plain 3 ∷ []; ending = interrupted }

begun : (begin_transaction sums (state held 7)).1 ≡ true
unfolding code
begun = refl

cancelled-aborted :
    (run_block sums cancelled_block (begin_transaction sums (state held 7)).0).1 ≡ aborted
unfolding code
cancelled-aborted = refl

instrumented_transaction-aborted_example :
    ((attempt (instrumented_transaction sums cancelled_block held 7).pool 3 3 false 101).1 ≡ got 7)
    × (((instrumented_transaction sums cancelled_block held 7).connections 7).auto ≡ false)
instrumented_transaction-aborted_example =
    instrumented_transaction-aborted sums view effect sums-IsTransactional cancelled_block held 7
      (checked_out 7 2) held-7 held-none_idle begun cancelled-aborted 3 3 false 101
