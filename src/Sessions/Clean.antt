-- ===== src/Sessions/Clean.antt =====
-- No session begins in a transaction that another one left open: core/db/session.py over the pool of
-- core/db/pool/sync_pool.py.
use salesinfo_api_v.Base.{ℕ, ◌≡◌, Bool, true, false, none, some, All, String, ℕ_discrete}
use salesinfo_api_v.Base.Dict.{lookup}
use salesinfo_api_v.Pool.Connections.{PoolConnection}
use salesinfo_api_v.Pool.Sync.{SyncConnectionPool, attempt, created}
use salesinfo_api_v.Pool.Sync.Steps.{Step, IsFresh}
use salesinfo_api_v.Pool.Adaptive
use salesinfo_api_v.Pool.Sync
use salesinfo_api_v.Performance.Histogram.{Histogram}
use salesinfo_api_v.Sessions.{Driver, Outcome, returned, World, update, leave_session}

module _ {C D Q : Type 0} (d : Driver C D Q) where
  -- psycopg2 refuses a change of `autocommit` inside a transaction.
  abbrev pub RefusesInTransaction : Type 0
  RefusesInTransaction =
      (b : Bool) (s : C × D)
      → (d.set_autocommit b s).1 ≡ true
      → (d.in_transaction (d.set_autocommit b s).0.0 ≡ false)
        × (d.autocommit (d.set_autocommit b s).0.0 ≡ b)

  -- In no transaction, and each statement commits itself.
  abbrev pub IsAtRest : C → Type 0
  IsAtRest c = (d.in_transaction c ≡ false) × (d.autocommit c ≡ true)

  -- So is every idle connection.
  abbrev pub IsClean : World C D → Type 0
  IsClean w = All (λ e. IsAtRest (w.connections e.conn)) w.pool.available

  -- What threads do next, in any order. A creation ends only under its reservation, a block works with
  -- a connection that it holds and returns only when its transactions are over.
  pub data SessionStep (w : World C D) : World C D → Type 0 where
    acquires :
        (start now : ℕ) (counted : Bool) (key : ℕ)
        → IsFresh key w.pool
        → SessionStep w (record w { pool = (attempt w.pool start now counted key).0 })
    connects :
        (key conn start create_start now : ℕ) (c : C)
        → lookup ℕ_discrete key w.pool.in_use ≡ some none
        → IsFresh conn w.pool
        → SessionStep w (record w {
          pool = created w.pool key conn start create_start now;
          connections = update w.connections conn c;
        })
    works :
        (conn : ℕ) (pc : PoolConnection) (s : C × D)
        → lookup ℕ_discrete conn w.pool.in_use ≡ some (some pc)
        → SessionStep w (record w { connections = update w.connections conn s.0; database = s.1 })
    ends :
        (occurs_in : String → String → Bool) (conn : ℕ) (pc : PoolConnection) (outcome : Outcome)
        → lookup ℕ_discrete conn w.pool.in_use ≡ some (some pc)
        → (outcome ≡ returned → IsAtRest (w.connections conn))
        → SessionStep w (leave_session d occurs_in w conn outcome)
    others :
        (q : SyncConnectionPool)
        → Step w.pool q
        → q.available ≡ w.pool.available
        → SessionStep w (record w { pool = q })

  pub data Sessions (w : World C D) : World C D → Type 0 where
    here : Sessions w w
    next : {v u : World C D} → Sessions w v → SessionStep v u → Sessions w u
