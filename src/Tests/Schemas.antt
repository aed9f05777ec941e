-- ===== src/Tests/Schemas.antt =====
-- Migrations at concrete inputs. A file's text is the list of its statements, a statement is a line
-- with one number, and 0 is the blank line; the checksum of a text is its first number.
use salesinfo_api_v.Base.{
  ℕ, ◌≡◌, refl, leb, ◌==◌, Bool, true, List, [], ◌∷◌, ◌++◌, map, some, ℕ_discrete,
}
use salesinfo_api_v.Base.Dict.{lookup, assign}
use salesinfo_api_v.Migrations.{
  Migration, MigrationFile, SqlText, Schema, done, statement_failed, insert, sort, read_files,
  load_migrations, statements_of, execute_all, check_checksum, apply_from, apply_migrations,
  synchronous, asynchronous, takes_lock, creates_table, adds_column, reads_table, executes, inserts,
  releases_lock, apply_files,
}
use salesinfo_api_v.Migrations.Rerun.{idle_commands, apply_migrations_twice}

-- What the tests compute with.
code : Unit {0}
unfolding lookup assign ℕ_discrete insert sort read_files load_migrations statements_of execute_all
    check_checksum apply_from apply_files apply_migrations
code = tt

abbrev first_number : List ℕ → ℕ
first_number [] = 0
first_number (n ∷ ns) = n

abbrev is_blank : List ℕ → Bool
is_blank [] = true
is_blank (n ∷ ns) = n == 0

abbrev lines : List (List ℕ) → List ℕ
lines [] = []
lines (l ∷ ls) = l ++ lines ls

abbrev sql_text : SqlText (List ℕ)
sql_text = record {
  split = map (λ n. n ∷ []);
  splitlines = λ s. s ∷ [];
  is_blank = is_blank;
  is_comment = λ s. first_number s == 9;
  join_strip = lines;
  is_empty = is_blank;
}

abbrev file : ℕ → List ℕ → MigrationFile (List ℕ)
file version sql = record { matched = some (version, version ∷ []); sql = sql }

-- The second file by name is the first one by version; statement 6 raises.
abbrev files : List (MigrationFile (List ℕ))
files = file 2 (5 ∷ 9 ∷ []) ∷ file 1 (4 ∷ 0 ∷ 3 ∷ []) ∷ []

abbrev migration_of : ℕ → List ℕ → ℕ → Migration (List ℕ) ℕ
migration_of version sql checksum = record {
  version = version;
  name = version ∷ [];
  sql = sql;
  checksum = checksum;
}

abbrev runs : List ℕ → Bool
runs s = leb (first_number s) 5

abbrev empty : Schema (List ℕ) ℕ
empty = record { applied = []; executed = []; held = 0 }

loaded :
    load_migrations first_number files
    ≡ some (migration_of 1 (4 ∷ 0 ∷ 3 ∷ []) 4 ∷ migration_of 2 (5 ∷ 9 ∷ []) 5 ∷ [])
unfolding code
loaded = refl

ends_well :
    (apply_migrations ℕ_discrete sql_text runs synchronous first_number files empty).2 ≡ done
unfolding code
ends_well = refl

-- The statements run in the order of the versions, without the blank and the comment.
executed :
    (apply_migrations ℕ_discrete sql_text runs asynchronous first_number files empty).0.executed
    ≡ takes_lock
      ∷ creates_table
      ∷ adds_column
      ∷ reads_table
      ∷ executes (4 ∷ [])
      ∷ executes (3 ∷ [])
      ∷ inserts 1
      ∷ executes (5 ∷ [])
      ∷ inserts 2
      ∷ releases_lock
      ∷ []
unfolding code
executed = refl

abbrev failing : List (MigrationFile (List ℕ))
failing = file 2 (6 ∷ []) ∷ file 1 (4 ∷ []) ∷ []

-- In the asynchronous version a failure in the second file leaves the first one applied.
fails :
    (apply_migrations ℕ_discrete sql_text runs asynchronous first_number failing empty).0.applied
    ≡ (1, some 4) ∷ []
unfolding code
fails = refl

-- In the synchronous version it takes all back, and the session still holds the lock.
keeps_lock :
    apply_migrations ℕ_discrete sql_text runs synchronous first_number failing empty
    ≡ (record empty { held = 1 }, (1, 1 ∷ []) ∷ [], statement_failed)
unfolding code
keeps_lock = refl

abbrev current : Schema (List ℕ) ℕ
current = (apply_migrations ℕ_discrete sql_text runs synchronous first_number files empty).0

apply_migrations_twice_example :
    apply_migrations ℕ_discrete sql_text runs asynchronous first_number files current ≡ (
      record current { executed = current.executed ++ idle_commands ℕ_discrete sql_text runs },
      [],
      done,
    )
apply_migrations_twice_example =
    apply_migrations_twice ℕ_discrete sql_text runs synchronous asynchronous first_number files
      empty ends_well
