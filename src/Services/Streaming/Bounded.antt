-- ===== src/Services/Streaming/Bounded.antt =====
-- `fetch_bounded` of core/db/adapters/postgresql.py against `_apply_result_limits` of
-- core/services/query_service.py.
use salesinfo_api_v.Base.{
  ℕ, zero, suc, ◌+◌, ◌<◌, ◌≡◌, refl, sym, ap, ◌∙◌, arith, Bool, true, false, ltb, leb,
  if◌then◌else◌, ◌||◌, List, [], ◌∷◌, ◌++◌, length, take, drop, take-append-drop, length-append,
  take_of_length-le, append-nil, append_assoc, Bool-cases, inl, inr, leb→le,
}
use salesinfo_api_v.Services.ResultLimits.{QueryLimits, within_bytes, apply_result_limits}
use salesinfo_api_v.Services.Streaming.{
  Fetched, nothing_fetched, appended, read_batch, fetch_batches, fetch_bounded,
}

or_false : (b : Bool) → (b || false) ≡ b
or_false true = refl
or_false false = refl

or_true : (b : Bool) → (b || true) ≡ true
or_true true = refl
or_true false = refl

module _ {ℓ} {R : Type ℓ} (row_bytes : R → ℕ) (limits : QueryLimits) where
  -- Two batches one after the other.
  read_batch-append :
      (f : Fetched R) (xs ys : List R)
      → f.truncated ≡ false
      → read_batch row_bytes limits f (xs ++ ys) ≡ (
          if (read_batch row_bytes limits f xs).truncated
          then read_batch row_bytes limits f xs
          else read_batch row_bytes limits (read_batch row_bytes limits f xs) ys)
  unfolding read_batch
  read_batch-append f [] ys going = rw going refl
  read_batch-append f (x ∷ xs) ys going =
      elim (Bool-cases (leb limits.max_result_rows (length f.rows))) [
        | inl full ↦ rw full refl
        | inr room ↦ elim (Bool-cases (ltb limits.max_result_bytes (f.total_bytes + row_bytes x))) [
          | inl over ↦ rw (room, over) refl
          | inr fits ↦
              rw (room, fits) (read_batch-append (appended row_bytes limits f x) xs ys going)
        ]
      ]

  -- Batches make no difference, given one round for each row and one more.
  fetch_batches_lem :
      (batch_size fuel : ℕ) (f : Fetched R) (rows : List R)
      → 0 < batch_size
      → length rows < fuel
      → f.truncated ≡ false
      → fetch_batches row_bytes limits batch_size fuel f rows ≡ read_batch row_bytes limits f rows
  unfolding fetch_batches
  fetch_batches_lem batch_size zero f rows some_rows enough going = absurd (omega arith)
  fetch_batches_lem zero (suc fuel) f rows some_rows enough going = absurd (omega arith)
  fetch_batches_lem (suc n) (suc fuel) f [] some_rows enough going = unfold read_batch in refl
  fetch_batches_lem (suc n) (suc fuel) f (row ∷ rows) some_rows enough going =
      let batch = row ∷ take n rows in
      let g = read_batch row_bytes limits f batch in
      let whole : batch ++ drop n rows ≡ row ∷ rows = ap (◌∷◌ row) (take-append-drop n rows) in
      let joined =
        ap (read_batch row_bytes limits f) (sym whole)
        ∙ read_batch-append f batch (drop n rows) going in
      elim (Bool-cases g.truncated) [
        | inl stopped ↦ rw stopped (sym (rw stopped at joined))
        | inr further ↦ rw further (
            fetch_batches_lem (suc n) fuel g (drop n rows) some_rows
              (omega (arith, ap length whole, length-append batch (drop n rows))) further
            ∙ sym (rw further at joined))
      ]

  -- What the loop keeps of all rows, with `k` rows left.
  read_batch-within_bytes :
      (k : ℕ) (f : Fetched R) (rows : List R)
      → k + length f.rows ≡ limits.max_result_rows
      → f.truncated ≡ false
      → ((read_batch row_bytes limits f rows).rows
          ≡ f.rows
            ++ (within_bytes row_bytes limits.max_result_bytes f.total_bytes (take k rows)).0)
        × ((read_batch row_bytes limits f rows).truncated
            ≡ (within_bytes row_bytes limits.max_result_bytes f.total_bytes (take k rows)).1
              || ltb k (length rows))
  unfolding read_batch within_bytes
  read_batch-within_bytes zero f [] left going =
      let no_more : ltb 0 0 ≡ false = ground arith in (sym (append-nil f.rows), going ∙ sym no_more)
  read_batch-within_bytes (suc k) f [] left going =
      let no_more : ltb (suc k) 0 ≡ false = ground arith in
      (sym (append-nil f.rows), going ∙ sym no_more)
  read_batch-within_bytes zero f (row ∷ rows) left going =
      let full : leb limits.max_result_rows (length f.rows) ≡ true = ground arith in
      let more : ltb 0 (suc (length rows)) ≡ true = ground arith in
      rw full (sym (append-nil f.rows), sym more)
  read_batch-within_bytes (suc k) f (row ∷ rows) left going =
      let room : leb limits.max_result_rows (length f.rows) ≡ false = ground arith in
      let g = appended row_bytes limits f row in
      elim (Bool-cases (ltb limits.max_result_bytes (f.total_bytes + row_bytes row))) [
        | inl over ↦ rw (room, over) (sym (append-nil f.rows), refl)
        | inr fits ↦
            let (kept, cut) =
              read_batch-within_bytes k g rows (omega (arith, length-append f.rows (row ∷ [])))
                going in
            let next : ltb (suc k) (suc (length rows)) ≡ ltb k (length rows) = ground arith in
            rw (room, fits, next) (kept ∙ append_assoc f.rows (row ∷ []) _, cut)
      ]

  apply_result_limits-take :
      (rows : List R)
      → (
        (within_bytes row_bytes limits.max_result_bytes 0 (take limits.max_result_rows rows)).0,
        (within_bytes row_bytes limits.max_result_bytes 0 (take limits.max_result_rows rows)).1
            || ltb limits.max_result_rows (length rows),
      )
        ≡ apply_result_limits row_bytes limits rows
  unfolding apply_result_limits
  apply_result_limits-take rows = elim (Bool-cases (leb (length rows) limits.max_result_rows)) [
    | inl few ↦
        let all = take_of_length-le limits.max_result_rows rows (leb→le _ _ few) in
        let whole : ltb limits.max_result_rows (length rows) ≡ false = ground arith in
        let out = within_bytes row_bytes limits.max_result_bytes 0 rows in
        rw (few, all, whole) (λ i. (out.0, or_false out.1 i))
    | inr many ↦
        let more : ltb limits.max_result_rows (length rows) ≡ true = ground arith in
        let out =
          within_bytes row_bytes limits.max_result_bytes 0 (take limits.max_result_rows rows) in
        rw (many, more) (λ i. (out.0, or_true out.1 i))
  ]

  -- With batches of any size but 0, streaming gives the rows and the flag that `_apply_result_limits` would
  -- give for all rows of the cursor.
  pub fetch_bounded-apply_result_limits :
      (batch_size : ℕ) (rows : List R)
      → 0 < batch_size
      → fetch_bounded row_bytes limits batch_size rows ≡ apply_result_limits row_bytes limits rows
  unfolding fetch_bounded apply_result_limits
  fetch_bounded-apply_result_limits batch_size rows some_rows =
      let fetched =
        fetch_batches_lem batch_size (suc (length rows)) nothing_fetched rows some_rows
          (omega arith) refl in
      let (kept, cut) =
        read_batch-within_bytes limits.max_result_rows nothing_fetched rows (omega arith) refl in
      (λ i. (
        (ap (λ (f : Fetched R). f.rows) fetched ∙ kept) i,
        (ap (λ (f : Fetched R). f.truncated) fetched ∙ cut) i,
      ))
      ∙ apply_result_limits-take rows
