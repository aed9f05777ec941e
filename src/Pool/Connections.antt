-- ===== src/Pool/Connections.antt =====
-- core/db/pool/base.py and policy.py: what both pools keep of a connection, the heap of the idle
-- ones and the window of recent waits. A connection is the number that `id(conn)` gives; times are
-- nanoseconds. The heap is the list of its entries in ascending order.
pub mod Heap
use salesinfo_api_v.Base.{
  ℕ, ◌+◌, Bool, ◌&&◌, ◌||◌, ltb, ◌==◌, if◌then◌else◌, List, [], ◌∷◌, ◌++◌, drop, Option, none, some,
  length,
}
use salesinfo_api_v.Pool.Adaptive.{Mean}

pub data ConnectionState : Type 0 where
  idle in_use creating closing closed broken : ConnectionState

pub record PoolConnection : Type 0 where
  pub created_at : ℕ
  pub connection : ℕ
  pub checked_out_at : ℕ
  pub state : ConnectionState
  pub consecutive_errors : ℕ

-- An entry of the heap `_available`.
pub record Idle : Type 0 where
  pub created_at : ℕ
  pub counter : ℕ
  pub conn : ℕ

abbrev pub before : Idle → Idle → Bool
before a b =
    ltb a.created_at b.created_at || (a.created_at == b.created_at && ltb a.counter b.counter)

unfoldable pub heappush : Idle → List Idle → List Idle
heappush e [] = e ∷ []
heappush e (x ∷ xs) = if before e x then e ∷ x ∷ xs else x ∷ heappush e xs

-- `append`, then `pop(0)` if the list has grown past the window.
unfoldable pub push_recent : ℕ → List ℕ → ℕ → List ℕ
push_recent window waits wait =
    if ltb window (length (waits ++ wait ∷ []))
    then drop 1 (waits ++ wait ∷ [])
    else waits ++ wait ∷ []

abbrev pub checked_out : ℕ → ℕ → PoolConnection
checked_out conn now = record {
  created_at = now;
  connection = conn;
  checked_out_at = now;
  state = ConnectionState.in_use;
  consecutive_errors = 0;
}

-- The connections among the slots, reservations left out.
abbrev pub connections : List (ℕ × Option PoolConnection) → List ℕ
connections [] = []
connections ((k, none) ∷ d) = connections d
connections ((k, some pc) ∷ d) = pc.connection ∷ connections d

abbrev pub sum : List ℕ → ℕ
sum [] = 0
sum (x ∷ xs) = x + sum xs

abbrev pub recent_average : List ℕ → Mean
recent_average [] = record { total = 0; count = 1 }
recent_average (w ∷ ws) = record { total = sum (w ∷ ws); count = length (w ∷ ws) }
