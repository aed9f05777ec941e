-- ===== src/Migrations/Rerun.antt =====
-- What a second call of the appliers of core/db/migrations.py does.
use salesinfo_api_v.Base.{
  ℕ, ap, ◌≡◌, ◌≢◌, refl, arith, ◌∙◌, sym, Bool, List, [], ◌∷◌, ◌++◌, none, some, All, inl, inr,
  append_assoc, ◌+◌, ◌-◌, Option-cases, subst,
}
use salesinfo_api_v.Migrations.{
  Migration, MigrationFile, SqlText, Schema, done, load_migrations, apply_from, apply_migrations,
  Command, takes_lock, creates_table, adds_column, reads_table, releases_lock, Mode, synchronous,
  asynchronous, Ending, statement_failed, bad_directory, checksum_mismatch, preamble, unlocked,
  finish, apply_files,
}
use salesinfo_api_v.Migrations.Order.{load_migrations-IsAscending}
use salesinfo_api_v.Migrations.Rows.{
  IsRecorded, apply_from_recorded, apply_from-IsRecorded, IsKnown-self,
}

module _ {S C : Type 0} (dec : Discrete C) (text : SqlText S) (runs : S → Bool) where
  apply_files-loaded :
      (checksum : S → C) (files : List (MigrationFile S)) (ms : List (Migration S C))
      (db : Schema S C)
      → load_migrations checksum files ≡ some ms
      → apply_files dec text runs checksum files db ≡ apply_from dec text runs db.applied ms db
  unfolding apply_files
  apply_files-loaded checksum files ms db loaded = rw (loaded, apply_files) refl

  finish_ending :
      (mode : Mode) (before : Schema S C) (r : Schema S C × List (ℕ × S) × Ending)
      → (finish mode before r).2 ≡ r.2
  finish_ending asynchronous before r = refl
  finish_ending synchronous before (db, names, done) = refl
  finish_ending synchronous before (db, names, statement_failed) = refl
  finish_ending synchronous before (db, names, bad_directory) = refl
  finish_ending synchronous before (db, names, checksum_mismatch) = refl

  finish_done :
      (mode : Mode) (before : Schema S C) (r : Schema S C × List (ℕ × S) × Ending)
      → r.2 ≡ done
      → finish mode before r ≡ (unlocked r.0, r.1, done)
  finish_done asynchronous before (db, names, ending) h = rw h refl
  finish_done synchronous before (db, names, done) h = refl
  finish_done synchronous before (db, names, statement_failed) h = cc
  finish_done synchronous before (db, names, bad_directory) h = cc
  finish_done synchronous before (db, names, checksum_mismatch) h = cc

  -- Where the files loaded and every row has its checksum, a call only takes the lock and looks.
  apply_migrations_recorded :
      (mode : Mode) (checksum : S → C) (files : List (MigrationFile S)) (ms : List (Migration S C))
      (db : Schema S C)
      → load_migrations checksum files ≡ some ms
      → All (IsRecorded {S = S} db.applied) ms
      → apply_migrations dec text runs mode checksum files db ≡ (unlocked (preamble db), [], done)
  unfolding apply_migrations
  apply_migrations_recorded mode checksum files ms db loaded recorded =
      let body =
        apply_files-loaded checksum files ms (preamble db) loaded
        ∙ apply_from_recorded dec text runs db.applied ms (preamble db) recorded in
      ap (finish mode db) body ∙ finish_done mode db (preamble db, [], done) refl

  apply_migrations-IsRecorded :
      (mode : Mode) (checksum : S → C) (files : List (MigrationFile S)) (ms : List (Migration S C))
      (db : Schema S C)
      → load_migrations checksum files ≡ some ms
      → (apply_migrations dec text runs mode checksum files db).2 ≡ done
      → All
          (IsRecorded {S = S} (apply_migrations dec text runs mode checksum files db).0.applied)
          ms
  unfolding apply_migrations
  apply_migrations-IsRecorded mode checksum files ms db loaded e =
      let body = apply_files dec text runs checksum files (preamble db) in
      let ended : body.2 ≡ done = sym (finish_ending mode db body) ∙ e in
      let first = apply_files-loaded checksum files ms (preamble db) loaded in
      let recorded : All (IsRecorded {S = S} body.0.applied) ms =
        subst (λ r. All (IsRecorded {S = S} r.0.applied) ms) (sym first)
          (apply_from-IsRecorded dec text runs db.applied ms (preamble db)
            (load_migrations-IsAscending checksum files ms loaded)
            (IsKnown-self dec text runs ms (preamble db)) (ap (λ r. r.2) (sym first) ∙ ended)) in
      subst (λ r. All (IsRecorded {S = S} r.0.applied) ms) (sym (finish_done mode db body ended))
        recorded

  -- A directory that does not load ends no call well.
  apply_migrations-loads :
      (mode : Mode) (checksum : S → C) (files : List (MigrationFile S)) (db : Schema S C)
      → (apply_migrations dec text runs mode checksum files db).2 ≡ done
      → load_migrations checksum files ≢ none
  unfolding apply_migrations apply_files
  apply_migrations-loads mode checksum files db e bad =
      let body = apply_files dec text runs checksum files (preamble db) in
      let refused : body.2 ≡ bad_directory = rw (bad, apply_files) refl in
      let ended : body.2 ≡ done = sym (finish_ending mode db body) ∙ e in cc

  -- What a call sends when there is nothing to do.
  abbrev pub idle_commands : List (Command S)
  idle_commands = takes_lock ∷ creates_table ∷ adds_column ∷ reads_table ∷ releases_lock ∷ []

  -- After a call of either applier that ended well, a second call of either with the same files sends only
  -- the five statements that every call sends, and none of a file; it applies no migration, changes no
  -- row, leaves the lock as it was, and ends well too.
  pub apply_migrations_twice :
      (first second : Mode) (checksum : S → C) (files : List (MigrationFile S)) (db : Schema S C)
      → (apply_migrations dec text runs first checksum files db).2 ≡ done
      → apply_migrations dec text runs second checksum files
          (apply_migrations dec text runs first checksum files db).0
        ≡ (
          record (apply_migrations dec text runs first checksum files db).0 {
            executed =
                (apply_migrations dec text runs first checksum files db).0.executed
                ++ idle_commands;
          },
          [],
          done,
        )
  apply_migrations_twice first second checksum files db e =
      elim (Option-cases (load_migrations checksum files)) [
        | inl bad ↦ absurd (apply_migrations-loads first checksum files db e bad)
        | inr (ms, loaded) ↦
            let after = (apply_migrations dec text runs first checksum files db).0 in
            let recorded = apply_migrations-IsRecorded first checksum files ms db loaded e in
            let lock : after.held + 1 - 1 ≡ after.held = omega arith in
            let sent =
              append_assoc after.executed
                (takes_lock ∷ creates_table ∷ adds_column ∷ reads_table ∷ [])
                (releases_lock ∷ []) in
            apply_migrations_recorded second checksum files ms after loaded recorded
            ∙ (λ i. (record after { executed = sent i; held = lock i }, [], done))
      ]
