-- ===== src/Sessions/Transactions.antt =====
-- `instrumented_transaction` of core/performance/adapters/transactions.py, which the opt-in transactions of
-- core/db/session.py are, and `transaction` of core/storage/application_state_store.py. The stages of the
-- profiler are left out.
pub mod Atomic
use salesinfo_api_v.Base.{ℕ, Bool, true, false, not, ◌&&◌, ◌||◌, if◌then◌else◌, List, [], ◌∷◌}
use salesinfo_api_v.Sessions.{
  Driver, Outcome, returned, interrupted, raised, begin_transaction, commit_transaction,
  rollback_transaction, World, state, returned_to,
}

-- A statement of a block; `caught` if the block catches what it raises and goes on, as `_flush_batch` of
-- core/observability/write_queue.py does.
pub record Statement (Q : Type 0) : Type 0 where
  pub query : Q
  pub caught : Bool

-- A block runs its statements on the connection up to the first that raises what the block does not catch,
-- and then ends in its own way.
pub record Block (Q : Type 0) : Type 0 where
  pub statements : List (Statement Q)
  pub ending : Outcome

-- How control leaves a block or a transaction.
pub data Exit : Type 0 where
  done failed aborted : Exit

abbrev pub exit : Outcome → Exit
exit returned = done
exit (raised text) = failed
exit interrupted = aborted

module _ {C D Q : Type 0} (d : Driver C D Q) where
  unfoldable pub run_all : List (Statement Q) → Exit → C × D → (C × D) × Exit
  run_all [] last s = (s, last)
  run_all (q ∷ qs) last s =
      let r = d.execute q.query s in
      let rest = run_all qs last r.0 in if r.1 || q.caught then rest else (r.0, failed)

  unfoldable pub run_block : Block Q → C × D → (C × D) × Exit
  unfolding run_all
  run_block b s = run_all b.statements (exit b.ending) s

  -- The `except` branch: whatever the rollback does, the exception goes on.
  abbrev pub rolled_back : C × D → (C × D) × Exit
  rolled_back s = ((rollback_transaction d s).0, failed)

  -- `conn.commit()` stands in the `try` block.
  abbrev pub ended : (C × D) × Exit → (C × D) × Exit
  ended (s, done) = let c = commit_transaction d s in if c.1 then (c.0, done) else rolled_back c.0
  ended (s, failed) = rolled_back s
  ended (s, aborted) = (s, aborted)

  -- `begin` stands in the `try` block too.
  unfoldable pub instrumented : Block Q → C × D → (C × D) × Exit
  unfolding begin_transaction commit_transaction rollback_transaction run_block
  instrumented b s =
      let start = begin_transaction d s in
      if start.1 then ended (run_block b start.0) else rolled_back start.0

  -- The connection is given back as whole, however the transaction ends.
  unfoldable pub instrumented_transaction : Block Q → World C D → ℕ → World C D
  unfolding instrumented
  instrumented_transaction b w conn = returned_to w conn (instrumented b (state w conn)).0 false

  -- The `finally` of the store's `transaction`. An exception of its own replaces the other.
  abbrev pub restored : C × D → Exit → (C × D) × Exit
  restored s e = let r = d.set_autocommit true s in (r.0, if r.1 then e else failed)

  abbrev pub store_ended : (C × D) × Exit → (C × D) × Exit
  store_ended (s, done) =
      let c = d.commit s in if c.1 then restored c.0 done else restored (d.rollback c.0).0 failed
  store_ended (s, failed) = restored (d.rollback s).0 failed
  store_ended (s, aborted) = restored s aborted

  -- `autocommit = False` stands before the `try` block.
  unfoldable pub transaction : Block Q → C × D → (C × D) × Exit
  unfolding run_block
  transaction b s =
      let start = d.set_autocommit false s in
      if start.1 then store_ended (run_block b start.0) else (start.0, failed)
