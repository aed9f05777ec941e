-- ===== src/Auth/RateLimit.antt =====
-- core/auth/rate_limiter.py over the `_app_rate_limit_windows` table of core/auth/shared_state.py.
-- The table is a dictionary over the rate keys; each operation is one atomic statement, so attempts
-- of several processes are a sequence of them. Times are numbers of one unit.
use salesinfo_api_v.Base.{
  ℕ, zero, suc, ◌+◌, ◌-◌, ◌≤◌, ◌<◌, ◌≡◌, ◌≢◌, refl, Bool, true, false, leb, arith, if◌then◌else◌,
  List, [], ◌∷◌, Option, none, some, All, Option-cases, subst, inl, inr,
}
use salesinfo_api_v.Base.Dict.{
  lookup, assign, delete, IsDict, lookup-assign, Absent-delete_self, lookup_of_Absent,
}

pub record Window : Type 0 where
  pub window_start : ℕ
  pub attempt_count : ℕ

-- `window_start <= now - window_seconds`, where the difference may be negative.
abbrev pub is_over : Window → ℕ → ℕ → Bool
is_over w window_seconds now = leb (w.window_start + window_seconds) now

-- The row that the UPSERT leaves.
unfoldable pub upsert : Option Window → ℕ → ℕ → Window
upsert none window_seconds now = record { window_start = now; attempt_count = 1 }
upsert (some w) window_seconds now =
    if is_over w window_seconds now
    then record { window_start = now; attempt_count = 1 }
    else record { window_start = w.window_start; attempt_count = w.attempt_count + 1 }

abbrev pub rows : Option Window → List Window
rows none = []
rows (some w) = w ∷ []

module _ {K : Type 0} (dec : Discrete K) where
  -- `check_and_record_attempt`: the table, and whether the attempt is allowed.
  unfoldable pub check_and_record : List (K × Window) → K → ℕ → ℕ → ℕ → List (K × Window) × Bool
  check_and_record table key max_attempts window_seconds now =
      let row = upsert (lookup dec key table) window_seconds now in
      (assign dec key row table, leb row.attempt_count max_attempts)

  -- `reset_attempts`.
  unfoldable pub reset : List (K × Window) → K → List (K × Window)
  reset table key = delete dec key table

  -- Attempts for one key at the given times, and the answers.
  unfoldable pub attempts : List (K × Window) → K → ℕ → ℕ → List ℕ → List (K × Window) × List Bool
  attempts table key m w [] = (table, [])
  attempts table key m w (now ∷ times) =
      let (t, allowed) = check_and_record table key m w now in
      let (u, rest) = attempts t key m w times in (u, allowed ∷ rest)

  -- `true` for each of the first `allowance` attempts, and `false` from then on.
  pub allow : ℕ → List ℕ → List Bool
  allow m [] = []
  allow zero (t ∷ times) = false ∷ allow zero times
  allow (suc m) (t ∷ times) = true ∷ allow m times

  abbrev row : ℕ → ℕ → Window
  row start count = record { window_start = start; attempt_count = count }

  -- An attempt within the window counts one more, and no other key is touched.
  within_window :
      (table : List (K × Window)) (key : K) (m w start count t : ℕ)
      → lookup dec key table ≡ some (row start count)
      → t < start + w
      → (lookup dec key (check_and_record table key m w t).0 ≡ some (row start (count + 1)))
        × ((check_and_record table key m w t).1 ≡ leb (count + 1) m)
  unfolding check_and_record upsert
  within_window table key m w start count t e h =
      rw (e, check_and_record)
        (ground (arith, lookup-assign dec key key (row start (count + 1)) table), ground arith)

  answers_from :
      (table : List (K × Window)) (key : K) (m w start count left : ℕ) (times : List ℕ)
      → lookup dec key table ≡ some (row start count)
      → left ≡ m - count
      → All (λ t. t < start + w) times
      → (attempts table key m w times).1 ≡ allow left times
  unfolding attempts allow
  answers_from table key m w start count left [] e h a = refl
  answers_from table key m w start count zero (t ∷ times) e h a =
      let (kept, answer) = within_window table key m w start count t e a.0 in
      rw answer (
        ground (
          arith,
          answers_from (check_and_record table key m w t).0 key m w start (count + 1) zero times
              kept (omega arith) a.1,
        ))
  answers_from table key m w start count (suc left) (t ∷ times) e h a =
      let (kept, answer) = within_window table key m w start count t e a.0 in
      rw answer (
        ground (
          arith,
          answers_from (check_and_record table key m w t).0 key m w start (count + 1) left times
              kept (omega arith) a.1,
        ))

  -- The first attempt, where there is no row or its window is over.
  first_attempt :
      (table : List (K × Window)) (key : K) (m w now : ℕ)
      → All (λ r. r.window_start + w ≤ now) (rows (lookup dec key table))
      → (lookup dec key (check_and_record table key m w now).0 ≡ some (row now 1))
        × ((check_and_record table key m w now).1 ≡ leb 1 m)
  unfolding check_and_record upsert
  first_attempt table key m w now h = elim (Option-cases (lookup dec key table)) [
    | inl new ↦
        rw (new, check_and_record)
          (ground (arith, lookup-assign dec key key (row now 1) table), refl)
    | inr (r, old) ↦
        let over : r.window_start + w ≤ now =
          (subst (λ o. All (λ x. x.window_start + w ≤ now) (rows o)) old h).0 in
        rw (old, check_and_record)
          (ground (arith, lookup-assign dec key key (row now 1) table), ground arith)
  ]

  -- For a key with no row or with one whose window is over, a first attempt and any further ones
  -- within the window that it opens, in whatever order their times come, are allowed exactly as
  -- long as fewer than `max_attempts` came before.
  pub attempts-allow :
      (table : List (K × Window)) (key : K) (max_attempts w now : ℕ) (times : List ℕ)
      → All (λ r. r.window_start + w ≤ now) (rows (lookup dec key table))
      → All (λ t. t < now + w) times
      → (attempts table key max_attempts w (now ∷ times)).1 ≡ allow max_attempts (now ∷ times)
  unfolding attempts allow
  attempts-allow table key zero w now times h a =
      let (kept, answer) = first_attempt table key 0 w now h in
      rw answer (
        ground (
          arith,
          answers_from (check_and_record table key 0 w now).0 key 0 w now 1 0 times kept
              (omega arith) a,
        ))
  attempts-allow table key (suc m) w now times h a =
      let (kept, answer) = first_attempt table key (suc m) w now h in
      rw answer (
        ground (
          arith,
          answers_from (check_and_record table key (suc m) w now).0 key (suc m) w now 1 m times kept
              (omega arith) a,
        ))

  -- Attempts for one key never change what is stored for another.
  check_and_record_other :
      (table : List (K × Window)) (key other : K) (m w now : ℕ)
      → key ≢ other
      → lookup dec other (check_and_record table key m w now).0 ≡ lookup dec other table
  unfolding check_and_record
  check_and_record_other table key other m w now n =
      ground (arith, lookup-assign dec key other (upsert (lookup dec key table) w now) table)

  -- After `reset_attempts` the key has its full allowance again.
  attempts-reset :
      (table : List (K × Window)) (key : K) (m w now : ℕ) (times : List ℕ)
      → IsDict table
      → All (λ t. t < now + w) times
      → (attempts (reset table key) key m w (now ∷ times)).1 ≡ allow m (now ∷ times)
  unfolding reset
  attempts-reset table key m w now times d a =
      attempts-allow (reset table key) key m w now times
        (rw (lookup_of_Absent dec key (delete dec key table) (Absent-delete_self dec key table d))
          tt)
        a
