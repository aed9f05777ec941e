-- ===== src/Migrations/Rows.antt =====
-- The rows of `schema_migrations` that the loop of core/db/migrations.py leaves.
use salesinfo_api_v.Base.{
  ℕ, ap, ◌<◌, ◌≡◌, ◌≢◌, refl, arith, ◌∙◌, sym, Bool, true, List, [], ◌∷◌, ◌++◌, Option, none, some,
  All, All-mono, inl, inr, Bool-cases, Option-cases, subst, if_pos, ℕ_discrete,
}
use salesinfo_api_v.Base.Dict.{lookup, lookup-assign}
use salesinfo_api_v.Migrations.{
  Migration, SqlText, Schema, done, split_statements, execute_all, record_applied, check_checksum,
  backfill, apply_from, Command, executes, inserts, backfills,
}
use salesinfo_api_v.Migrations.Order.{IsAscending}

module _ {S C : Type 0} (runs : S → Bool) where
  execute_all-applied :
      (db : Schema S C) (qs : List S) → (execute_all runs db qs).0.applied ≡ db.applied
  unfolding execute_all
  execute_all-applied db [] = refl
  execute_all-applied db (q ∷ qs) = elim (Bool-cases (runs q)) [
    | inl ok ↦
        rw ok (execute_all-applied (record db { executed = db.executed ++ executes q ∷ [] }) qs)
    | inr raised ↦ rw raised refl
  ]

module _ {S C : Type 0} where
  -- The row of a migration has its checksum.
  abbrev pub IsRecorded : List (ℕ × Option C) → Migration S C → Type 0
  IsRecorded applied m = lookup ℕ_discrete m.version applied ≡ some (some m.checksum)

  record_self :
      (by : Command S) (db : Schema S C) (m : Migration S C)
      → IsRecorded (record_applied by db m).applied m
  record_self by db m =
      ground (arith, lookup-assign ℕ_discrete m.version m.version (some m.checksum) db.applied)

  record_other :
      (by : Command S) (db : Schema S C) (m : Migration S C) (v : ℕ)
      → m.version ≢ v
      → lookup ℕ_discrete v (record_applied by db m).applied ≡ lookup ℕ_discrete v db.applied
  record_other by db m v n =
      ground (arith, n, lookup-assign ℕ_discrete m.version v (some m.checksum) db.applied)

module _ {S C : Type 0} (dec : Discrete C) (text : SqlText S) (runs : S → Bool) where
  backfill_other :
      (db : Schema S C) (m : Migration S C) (recorded : Option C) (v : ℕ)
      → m.version ≢ v
      → lookup ℕ_discrete v (backfill dec text runs db m recorded).applied
        ≡ lookup ℕ_discrete v db.applied
  backfill_other db m none v n = record_other (backfills m.version) db m v n
  backfill_other db m (some c) v n = refl

  -- Migrations touch no row but their own.
  apply_from-lookup :
      (known : List (ℕ × Option C)) (ms : List (Migration S C)) (db : Schema S C) (v : ℕ)
      → All (λ m. m.version ≢ v) ms
      → lookup ℕ_discrete v (apply_from dec text runs known ms db).0.applied
        ≡ lookup ℕ_discrete v db.applied
  unfolding apply_from
  apply_from-lookup known [] db v a = refl
  apply_from-lookup known (m ∷ ms) db v a =
      elim (Option-cases (lookup ℕ_discrete m.version known)) [
        | inr (recorded, there) ↦ elim (Bool-cases (check_checksum dec m.checksum recorded)) [
          | inl good ↦
              rw (there, apply_from)
                (rw good (
                  apply_from-lookup known ms (backfill dec text runs db m recorded) v a.1
                  ∙ backfill_other db m recorded v a.0))
          | inr changed ↦ rw (there, apply_from) (rw changed refl)
        ]
        | inl new ↦
            let run = execute_all runs db (split_statements text m.sql) in
            let kept = execute_all-applied runs db (split_statements text m.sql) in
            elim (Bool-cases run.1) [
              | inl ok ↦
                  rw (new, apply_from)
                    (rw ok (
                      apply_from-lookup known ms (record_applied (inserts m.version) run.0 m) v a.1
                      ∙ record_other (inserts m.version) run.0 m v a.0
                      ∙ rw kept refl))
              | inr raised ↦ rw (new, apply_from) (rw raised (rw kept refl))
            ]
      ]

  -- The rows that the loop knows are still those of the table, as far as it has not come.
  abbrev pub IsKnown : List (ℕ × Option C) → Schema S C → Migration S C → Type 0
  IsKnown known db m = lookup ℕ_discrete m.version db.applied ≡ lookup ℕ_discrete m.version known

  good_checksum :
      (current recorded : C)
      → check_checksum dec current (some recorded) ≡ true
      → recorded ≡ current
  unfolding check_checksum
  good_checksum current recorded h = elim (dec recorded current) [
    | yes same ↦ same
    | no other ↦ absurd (ground (arith, h, other))
  ]

  backfilled :
      (db : Schema S C) (m : Migration S C) (recorded : Option C)
      → lookup ℕ_discrete m.version db.applied ≡ some recorded
      → check_checksum dec m.checksum recorded ≡ true
      → IsRecorded (backfill dec text runs db m recorded).applied m
  backfilled db m none e good = record_self (backfills m.version) db m
  backfilled db m (some c) e good = ground (arith, e, good_checksum m.checksum c good)

  still-IsKnown :
      (known : List (ℕ × Option C)) (m : Migration S C) (ms : List (Migration S C))
      (before after : Schema S C)
      → ((v : ℕ)
          → m.version ≢ v
          → lookup ℕ_discrete v after.applied ≡ lookup ℕ_discrete v before.applied)
      → All (λ x. m.version < x.version) ms
      → All (IsKnown known before) ms
      → All (IsKnown known after) ms
  still-IsKnown known m [] before after same lt k = tt
  still-IsKnown known m (x ∷ ms) before after same lt k = (
    same x.version (λ q. omega (arith, lt.0, q)) ∙ k.0,
    still-IsKnown known m ms before after same lt.1 k.1,
  )

  above-ne :
      (m : Migration S C) (ms : List (Migration S C))
      → All (λ x. m.version < x.version) ms
      → All (λ x. x.version ≢ m.version) ms
  above-ne m ms = All-mono _ _ ms (λ x lt q. omega (arith, lt, q))

  apply_from-recorded :
      (known : List (ℕ × Option C)) (m : Migration S C) (ms : List (Migration S C))
      (db : Schema S C) (recorded : Option C)
      → lookup ℕ_discrete m.version known ≡ some recorded
      → check_checksum dec m.checksum recorded ≡ true
      → apply_from dec text runs known (m ∷ ms) db
        ≡ apply_from dec text runs known ms (backfill dec text runs db m recorded)
  unfolding apply_from
  apply_from-recorded known m ms db recorded there good = rw (there, apply_from) (rw good refl)

  apply_from-new :
      (known : List (ℕ × Option C)) (m : Migration S C) (ms : List (Migration S C))
      (db : Schema S C)
      → lookup ℕ_discrete m.version known ≡ none
      → (execute_all runs db (split_statements text m.sql)).1 ≡ true
      → apply_from dec text runs known (m ∷ ms) db ≡ (
          let rest = apply_from dec text runs known ms (
            record_applied
              (inserts m.version)
              (execute_all runs db (split_statements text m.sql)).0
              m) in
          (rest.0, (m.version, m.name) ∷ rest.1, rest.2))
  unfolding apply_from
  apply_from-new known m ms db new ok = rw (new, apply_from) (rw ok refl)

  -- The step from a migration to the rest of them, where the loop goes on.
  IsRecorded-step :
      (known : List (ℕ × Option C)) (m : Migration S C) (ms : List (Migration S C))
      (db after : Schema S C)
      → IsAscending (m ∷ ms)
      → (apply_from dec text runs known (m ∷ ms) db).0 ≡ (apply_from dec text runs known ms after).0
      → IsRecorded after.applied m
      → All (IsRecorded (apply_from dec text runs known ms after).0.applied) ms
      → All (IsRecorded (apply_from dec text runs known (m ∷ ms) db).0.applied) (m ∷ ms)
  IsRecorded-step known m ms db after s eq here rest =
      subst (λ d. All (IsRecorded {S = S} d.applied) (m ∷ ms)) (sym eq)
        (apply_from-lookup known ms after m.version (above-ne m ms s.0) ∙ here, rest)

  -- If the loop ends well, the row of each migration has its checksum.
  pub apply_from-IsRecorded :
      (known : List (ℕ × Option C)) (ms : List (Migration S C)) (db : Schema S C)
      → IsAscending ms
      → All (IsKnown known db) ms
      → (apply_from dec text runs known ms db).2 ≡ done
      → All (IsRecorded (apply_from dec text runs known ms db).0.applied) ms
  unfolding apply_from
  apply_from-IsRecorded known [] db s k e = tt
  apply_from-IsRecorded known (m ∷ ms) db s k e =
      elim (Option-cases (lookup ℕ_discrete m.version known)) [
        | inr (recorded, there) ↦ elim (Bool-cases (check_checksum dec m.checksum recorded)) [
          | inr changed ↦ absurd (ground (arith, rw (there, apply_from) at e, changed))
          | inl good ↦
              let after = backfill dec text runs db m recorded in
              IsRecorded-step known m ms db after s
                (ap (λ r. r.0) (apply_from-recorded known m ms db recorded there good))
                (backfilled db m recorded (k.0 ∙ there) good)
                (apply_from-IsRecorded known ms after s.1
                  (still-IsKnown known m ms db after (λ v. backfill_other db m recorded v) s.0 k.1)
                  (ground (arith, rw (there, apply_from) at e, good)))
        ]
        | inl new ↦
            let run = execute_all runs db (split_statements text m.sql) in
            let kept = execute_all-applied runs db (split_statements text m.sql) in
            let after = record_applied (inserts m.version) run.0 m in
            elim (Bool-cases run.1) [
              | inr raised ↦ absurd (ground (arith, rw (new, apply_from) at e, raised))
              | inl ok ↦
                  IsRecorded-step known m ms db after s
                    (ap (λ r. r.0) (apply_from-new known m ms db new ok))
                    (record_self (inserts m.version) run.0 m)
                    (apply_from-IsRecorded known ms after s.1
                      (still-IsKnown known m ms db after
                        (λ v n. record_other (inserts m.version) run.0 m v n ∙ rw kept refl) s.0
                        k.1)
                      (ground (arith, rw (new, apply_from) at e, ok)))
            ]
      ]

  -- Where every row has its checksum there is nothing to do.
  pub apply_from_recorded :
      (known : List (ℕ × Option C)) (ms : List (Migration S C)) (db : Schema S C)
      → All (IsRecorded known) ms
      → apply_from dec text runs known ms db ≡ (db, [], done)
  unfolding apply_from check_checksum
  apply_from_recorded known [] db r = refl
  apply_from_recorded known (m ∷ ms) db r =
      rw (r.0, apply_from) (rw (if_pos _ refl) (apply_from_recorded known ms db r.1))

  pub IsKnown-self : (ms : List (Migration S C)) (db : Schema S C) → All (IsKnown db.applied db) ms
  IsKnown-self [] db = tt
  IsKnown-self (m ∷ ms) db = (refl, IsKnown-self ms db)
