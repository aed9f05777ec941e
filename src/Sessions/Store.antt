-- ===== src/Sessions/Store.antt =====
-- core/storage/application_state_store.py: `_acquire` and the calls that run in it, over the pool. How the
-- connection goes back, against core/db/session.py, is in the child.
pub mod Returned
use salesinfo_api_v.Base.{ℕ, Bool, true, false, if◌then◌else◌}
use salesinfo_api_v.Sessions.{Driver, World, state, returned_to}
use salesinfo_api_v.Sessions.Transactions.{Block, transaction}

-- A call of the store on a connection: the new state, and whether it returned.
pub data Request (Q : Type 0) : Type 0 where
  writes reads : Q → Request Q
  transacts : Block Q → Request Q

module _ {C D Q : Type 0} (d : Driver C D Q) (is_select : Q → Bool) where
  -- `execute`: a statement that is not a SELECT is committed as well.
  unfoldable pub execute : Q → C × D → (C × D) × Bool
  execute q s =
      let r = d.execute q s in if r.1 then (if is_select q then r else d.commit r.0) else r

  -- The connection after `execute`, `fetch_one` or `fetch_all`, or `transaction`.
  unfoldable pub after_request : Request Q → C × D → C × D
  unfolding execute
  after_request (writes q) s = (execute q s).0
  after_request (reads q) s = (d.execute q s).0
  after_request (transacts b) s = (transaction d b s).0

  -- The `finally` of `_acquire` gives the connection back, and never as broken.
  unfoldable pub handle : Request Q → World C D → ℕ → World C D
  unfolding after_request
  handle r w conn = returned_to w conn (after_request r (state w conn)) false
