-- ===== src/Migrations.antt =====
-- core/db/migrations.py: loading the migration files and applying those that are not yet applied. The
-- advisory lock lets one process at a time run `apply_migrations`, which is the synchronous version or the
-- asynchronous one. In the asynchronous version every statement commits by itself; the synchronous one is
-- one transaction of core/storage/application_state_store.py, and what raises takes all of it back, but for
-- the lock, which the session holds. A text is a value of `S`, a checksum one of `C`; what the methods of
-- texts give is the parameter `SqlText`. The statements on `schema_migrations` and the lock do not fail,
-- unless the transaction already has.
pub mod Order
pub mod Rows
pub mod Rerun
use salesinfo_api_v.Base.{
  ℕ, ◌+◌, ◌-◌, leb, ltb, ◌==◌, Bool, true, false, not, ◌||◌, if◌then◌else◌, List, [], ◌∷◌, ◌++◌,
  Option, none, some, ite, ℕ_discrete,
}
use mathlib.Core.Option
use salesinfo_api_v.Base.Dict.{lookup, assign}

pub record Migration (S C : Type 0) : Type 0 where
  pub version : ℕ
  pub name : S
  pub sql : S
  pub checksum : C

-- A file: what the pattern finds in its name, and its text.
pub record MigrationFile (S : Type 0) : Type 0 where
  pub matched : Option (ℕ × S)
  pub sql : S

-- `split(";")`, `splitlines()`, `not line.strip()`, `line.strip().startswith("--")`,
-- `"\n".join(lines).strip()`, and whether a text is empty.
pub record SqlText (S : Type 0) : Type 0 where
  pub split : S → List S
  pub splitlines : S → List S
  pub is_blank : S → Bool
  pub is_comment : S → Bool
  pub join_strip : List S → S
  pub is_empty : S → Bool

-- What the appliers send to the database: the constant statements, the two with a version as a parameter, and
-- those of the files.
pub data Command (S : Type 0) : Type 0 where
  takes_lock creates_table adds_column reads_table releases_lock : Command S
  backfills inserts : ℕ → Command S
  executes : S → Command S

-- `schema_migrations`, by the columns that are read, the statements that have run so far and were not rolled
-- back, and how often the session holds the advisory lock.
pub record Schema (S C : Type 0) : Type 0 where
  pub applied : List (ℕ × Option C)
  pub executed : List (Command S)
  pub held : ℕ

pub data Mode : Type 0 where
  synchronous asynchronous : Mode

-- How a call of `apply_migrations` ends.
pub data Ending : Type 0 where
  done bad_directory checksum_mismatch statement_failed : Ending

abbrev pub seen : ℕ → List ℕ → Bool
seen version [] = false
seen version (v ∷ versions) = v == version || seen version versions

module _ {S C : Type 0} where
  -- `migrations.sort(key=version)`.
  unfoldable pub insert : Migration S C → List (Migration S C) → List (Migration S C)
  insert m [] = m ∷ []
  insert m (x ∷ migrations) =
      if leb m.version x.version then m ∷ x ∷ migrations else x ∷ insert m migrations

  unfoldable pub sort : List (Migration S C) → List (Migration S C)
  sort [] = []
  sort (m ∷ migrations) = insert m (sort migrations)

module _ {S C : Type 0} (checksum : S → C) where
  abbrev pub migration : MigrationFile S → ℕ → S → Migration S C
  migration f version name = record {
    version = version;
    name = name;
    sql = f.sql;
    checksum = checksum f.sql;
  }

  -- The loop of `load_migrations`, with the versions seen so far; `none` is the ValueError.
  unfoldable pub read_files : List ℕ → List (MigrationFile S) → Option (List (Migration S C))
  read_files versions [] = some []
  read_files versions (f ∷ files) = elim f.matched [
    | none ↦ none
    | some (version, name) ↦
        let rest = read_files (version ∷ versions) files in
        if seen version versions
        then none
        else Option.map (λ ms. migration f version name ∷ ms) rest
  ]

  unfoldable pub load_migrations : List (MigrationFile S) → Option (List (Migration S C))
  load_migrations files = Option.map sort (read_files [] files)

module _ {S : Type 0} (text : SqlText S) where
  abbrev pub code_lines : List S → List S
  code_lines [] = []
  code_lines (l ∷ lines) =
      let rest = code_lines lines in if text.is_blank l || text.is_comment l then rest else l ∷ rest

  unfoldable pub statements_of : List S → List S
  statements_of [] = []
  statements_of (raw ∷ pieces) =
      let statement = text.join_strip (code_lines (text.splitlines raw)) in
      let rest = statements_of pieces in if text.is_empty statement then rest else statement ∷ rest

  abbrev pub split_statements : S → List S
  split_statements sql = statements_of (text.split sql)

-- `runs` says of each statement whether the database runs it or raises.
module _ {S C : Type 0} (runs : S → Bool) where
  -- The statements of one file: where one raises the rest is skipped.
  unfoldable pub execute_all : Schema S C → List S → Schema S C × Bool
  execute_all db [] = (db, true)
  execute_all db (q ∷ statements) =
      let rest = execute_all (record db { executed = db.executed ++ executes q ∷ [] }) statements in
      if runs q then rest else (db, false)

-- The row of a migration, by an INSERT or an UPDATE.
abbrev pub record_applied : {S C : Type 0} → Command S → Schema S C → Migration S C → Schema S C
record_applied by db m = record db {
  applied = assign ℕ_discrete m.version (some m.checksum) db.applied;
  executed = db.executed ++ by ∷ [];
}

abbrev pub preamble : {S C : Type 0} → Schema S C → Schema S C
preamble db = record db {
  executed = db.executed ++ takes_lock ∷ creates_table ∷ adds_column ∷ reads_table ∷ [];
  held = db.held + 1;
}

abbrev pub unlocked : {S C : Type 0} → Schema S C → Schema S C
unlocked db = record db { executed = db.executed ++ releases_lock ∷ []; held = db.held - 1 }

-- The `finally`, and the end of the transaction: the schema before the call, and how the `try` block left
-- it. In a transaction that has failed the database refuses to release the lock.
abbrev pub finish :
    {S C : Type 0}
    → Mode
    → Schema S C
    → Schema S C × List (ℕ × S) × Ending
    → Schema S C × List (ℕ × S) × Ending
finish asynchronous before (db, names, ending) = (unlocked db, names, ending)
finish synchronous before (db, names, done) = (unlocked db, names, done)
finish synchronous before (db, names, statement_failed) =
    (record before { held = before.held + 1 }, names, statement_failed)
finish synchronous before (db, names, bad_directory) = (before, names, bad_directory)
finish synchronous before (db, names, checksum_mismatch) = (before, names, checksum_mismatch)

module _ {C : Type 0} (dec : Discrete C) where
  -- `_check_checksum`: false is MigrationChecksumMismatch.
  unfoldable pub check_checksum : C → Option C → Bool
  check_checksum current none = true
  check_checksum current (some recorded) = ite (dec recorded current) true false

module _ {S C : Type 0} (dec : Discrete C) (text : SqlText S) (runs : S → Bool) where
  abbrev pub backfill : Schema S C → Migration S C → Option C → Schema S C
  backfill db m none = record_applied (backfills m.version) db m
  backfill db m (some recorded) = db

  -- The loop, over the checksums that were read before it: the schema, the names applied, the ending.
  unfoldable pub apply_from :
      List (ℕ × Option C) → List (Migration S C) → Schema S C → Schema S C × List (ℕ × S) × Ending
  apply_from known [] db = (db, [], done)
  apply_from known (m ∷ migrations) db = elim (lookup ℕ_discrete m.version known) [
    | some recorded ↦
        let rest = apply_from known migrations (backfill db m recorded) in
        if check_checksum dec m.checksum recorded then rest else (db, [], checksum_mismatch)
    | none ↦
        let run = execute_all runs db (split_statements text m.sql) in
        let rest = apply_from known migrations (record_applied (inserts m.version) run.0 m) in
        if run.1
        then (rest.0, (m.version, m.name) ∷ rest.1, rest.2)
        else (run.0, [], statement_failed)
  ]

  -- The `try` block after the statements that every call sends.
  unfoldable pub apply_files :
      (S → C) → List (MigrationFile S) → Schema S C → Schema S C × List (ℕ × S) × Ending
  apply_files checksum files db = elim (load_migrations checksum files) [
    | none ↦ (db, [], bad_directory)
    | some migrations ↦ apply_from db.applied migrations db
  ]

  -- `apply_migrations_sync` and `apply_migrations_async`.
  unfoldable pub apply_migrations :
      Mode → (S → C) → List (MigrationFile S) → Schema S C → Schema S C × List (ℕ × S) × Ending
  unfolding apply_files
  apply_migrations mode checksum files db =
      finish mode db (apply_files checksum files (preamble db))
