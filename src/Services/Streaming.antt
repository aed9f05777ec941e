-- ===== src/Services/Streaming.antt =====
-- `fetch_bounded` of core/db/adapters/postgresql.py: the loop that reads a server-side cursor batch by batch.
-- The rows that the cursor gives are a list, and `fetchmany` takes its next rows; the length of a row's JSON
-- text is the parameter `row_bytes`. The transaction around the loop, and exceptions, are left out.
pub mod Bounded
use salesinfo_api_v.Base.{
  ℕ, zero, suc, ◌+◌, Bool, true, false, ltb, leb, if◌then◌else◌, List, [], ◌∷◌, ◌++◌, length, take,
  drop,
}
use salesinfo_api_v.Services.ResultLimits.{QueryLimits}

-- The variables of the loop. `stop` is set together with `truncated`.
pub record Fetched {ℓ} (R : Type ℓ) : Type ℓ where
  pub rows : List R
  pub total_bytes : ℕ
  pub truncated : Bool

abbrev pub nothing_fetched {ℓ} : {R : Type ℓ} → Fetched R
nothing_fetched = record { rows = []; total_bytes = 0; truncated = false }

abbrev pub is_empty {ℓ} : {R : Type ℓ} → List R → Bool
is_empty [] = true
is_empty (x ∷ xs) = false

module _ {ℓ} {R : Type ℓ} (row_bytes : R → ℕ) (limits : QueryLimits) where
  abbrev pub appended : Fetched R → R → Fetched R
  appended f row = record f {
    rows = f.rows ++ row ∷ [];
    total_bytes = f.total_bytes + row_bytes row;
  }

  -- The `for` loop over a batch.
  unfoldable pub read_batch : Fetched R → List R → Fetched R
  read_batch f [] = f
  read_batch f (row ∷ batch) =
      let rest = read_batch (appended f row) batch in
      if leb limits.max_result_rows (length f.rows)
      then record f { truncated = true }
      else if ltb limits.max_result_bytes (f.total_bytes + row_bytes row)
      then record f { truncated = true }
      else rest

  -- The `while` loop, on fuel.
  unfoldable pub fetch_batches : ℕ → ℕ → Fetched R → List R → Fetched R
  unfolding read_batch
  fetch_batches batch_size zero f rows = f
  fetch_batches batch_size (suc fuel) f rows =
      let batch = take batch_size rows in
      let g = read_batch f batch in
      let rest = fetch_batches batch_size fuel g (drop batch_size rows) in
      if is_empty batch then f else if g.truncated then g else rest

  unfoldable pub fetch_bounded : ℕ → List R → List R × Bool
  unfolding fetch_batches
  fetch_bounded batch_size rows =
      let f = fetch_batches batch_size (suc (length rows)) nothing_fetched rows in
      (f.rows, f.truncated)
