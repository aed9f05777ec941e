-- ===== src/Sessions.antt =====
-- core/db/session.py, core/performance/adapters/transactions.py and
-- core/storage/application_state_store.py: what a caller's block does with a connection of the pool, and
-- in what state the connection goes back. The synchronous and the asynchronous versions make the same
-- calls in the same order. The database driver is the parameter `Driver`.
pub mod Clean
pub mod Transactions
pub mod Store
use salesinfo_api_v.Base.{
  ℕ, Bool, true, false, not, ◌&&◌, ◌||◌, if◌then◌else◌, ite, List, [], ◌∷◌, Option, none, some,
  String, ℕ_discrete,
}
use salesinfo_api_v.Pool.Sync.{SyncConnectionPool, release}

-- A connection, and what is committed in the database. A call gives the new state of both and whether
-- it returned, `false` being an exception.
pub record Driver (C D Q : Type 0) : Type 0 where
  pub execute : Q → C × D → (C × D) × Bool
  pub commit : C × D → (C × D) × Bool
  pub rollback : C × D → (C × D) × Bool
  pub set_autocommit : Bool → C × D → (C × D) × Bool
  pub in_transaction : C → Bool
  pub autocommit : C → Bool

-- How a block ends: it returns, an exception of class `Exception` leaves it, given by its class name and
-- message in lower case, or it is interrupted: by a cancellation, or in the synchronous version by a
-- KeyboardInterrupt.
pub data Outcome : Type 0 where
  returned interrupted : Outcome
  raised : String → Outcome

abbrev pub connection_level_signals : List String
connection_level_signals =
    "connection is closed" ∷ "connection already closed" ∷ "connection closed" ∷ "connection reset"
    ∷ "broken pipe" ∷ "not connected" ∷ "no connection to the server"
    ∷ "server closed the connection" ∷ "could not connect" ∷ "connection refused" ∷ "eof occurred"
    ∷ "ssl error" ∷ "socket" ∷ []

-- `signal in text` is the parameter `occurs_in`.
unfoldable pub any_occurs : (String → String → Bool) → List String → String → Bool
any_occurs occurs_in [] text = false
any_occurs occurs_in (s ∷ signals) text = occurs_in s text || any_occurs occurs_in signals text

unfoldable pub is_connection_level_error : (String → String → Bool) → String → Bool
unfolding any_occurs
is_connection_level_error occurs_in text = any_occurs occurs_in connection_level_signals text

module _ {C D Q : Type 0} (d : Driver C D Q) where
  -- What the rollback raises is swallowed.
  abbrev pub safe_rollback : C × D → C × D
  safe_rollback s = (d.rollback s).0

  unfoldable pub begin_transaction : C × D → (C × D) × Bool
  begin_transaction s = d.set_autocommit false s

  -- An exception of either call leaves it.
  unfoldable pub commit_transaction : C × D → (C × D) × Bool
  commit_transaction s =
      let c = d.commit s in let a = d.set_autocommit true c.0 in (a.0, c.1 && a.1)

  unfoldable pub rollback_transaction : C × D → (C × D) × Bool
  rollback_transaction s = d.set_autocommit true (safe_rollback s)

-- The pool, the state of each connection, and the database.
pub record World (C D : Type 0) : Type 0 where
  pub pool : SyncConnectionPool
  pub connections : ℕ → C
  pub database : D

abbrev pub update : {C : Type 0} → (ℕ → C) → ℕ → C → ℕ → C
update f conn c j = ite (ℕ_discrete conn j) c (f j)

module _ {C D : Type 0} where
  abbrev pub state : World C D → ℕ → C × D
  state w conn = (w.connections conn, w.database)

  -- The connection is given back in the state `s`.
  abbrev pub returned_to : World C D → ℕ → C × D → Bool → World C D
  returned_to w conn s is_broken = record {
    pool = (release w.pool conn is_broken).0;
    connections = update w.connections conn s.0;
    database = s.1;
  }

module _ {C D Q : Type 0} (d : Driver C D Q) (occurs_in : String → String → Bool) where
  -- The state of the connection after a block, and whether it counts as broken: the `except` branches
  -- of `get_sync_session` and `get_async_session`.
  unfoldable pub after_block : Outcome → C × D → (C × D) × Bool
  unfolding rollback_transaction is_connection_level_error
  after_block returned s = (s, false)
  after_block interrupted s = let r = rollback_transaction d s in (r.0, not r.1)
  after_block (raised text) s =
      if is_connection_level_error occurs_in text
      then (s, true)
      else (let r = rollback_transaction d s in (r.0, not r.1))

  -- The way out of `get_sync_session`, its `finally` included.
  unfoldable pub leave_session : World C D → ℕ → Outcome → World C D
  unfolding after_block
  leave_session w conn outcome =
      let r = after_block outcome (state w conn) in returned_to w conn r.0 r.1
