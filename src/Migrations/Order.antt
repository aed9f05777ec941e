-- ===== src/Migrations/Order.antt =====
-- The order in which `load_migrations` of core/db/migrations.py gives the migrations.
use mathlib.Core.Option
use salesinfo_api_v.Base.{
  ℕ, ◌<◌, ◌≡◌, ◌≢◌, arith, leb, false, List, [], ◌∷◌, Option, none, some, All, All-mono, inl, inr,
  Bool-cases, Option-cases, subst,
}
use salesinfo_api_v.Migrations.{
  Migration, MigrationFile, insert, sort, migration, seen, read_files, load_migrations,
}

-- Each version is smaller than all that follow.
abbrev pub IsAscending : {S C : Type 0} → List (Migration S C) → Type 0
IsAscending [] = Unit
IsAscending (m ∷ ms) = All (λ x. m.version < x.version) ms × IsAscending ms

abbrev IsDistinct : {S C : Type 0} → List (Migration S C) → Type 0
IsDistinct [] = Unit
IsDistinct (m ∷ ms) = All (λ x. x.version ≢ m.version) ms × IsDistinct ms

module _ {S C : Type 0} where
  All-insert :
      (P : Migration S C → Type 0) (m : Migration S C) (ms : List (Migration S C))
      → P m
      → All P ms
      → All P (insert m ms)
  unfolding insert
  All-insert P m [] p a = (p, tt)
  All-insert P m (x ∷ ms) p a = elim (Bool-cases (leb m.version x.version)) [
    | inl le ↦ rw le (p, a)
    | inr gt ↦ rw gt (a.0, All-insert P m ms p a.1)
  ]

  All-sort : (P : Migration S C → Type 0) (ms : List (Migration S C)) → All P ms → All P (sort ms)
  unfolding sort
  All-sort P [] a = tt
  All-sort P (m ∷ ms) a = All-insert P m (sort ms) a.0 (All-sort P ms a.1)

  insert-IsAscending :
      (m : Migration S C) (ms : List (Migration S C))
      → All (λ x. x.version ≢ m.version) ms
      → IsAscending ms
      → IsAscending (insert m ms)
  unfolding insert
  insert-IsAscending m [] n s = (tt, tt)
  insert-IsAscending m (x ∷ ms) n s = elim (Bool-cases (leb m.version x.version)) [
    | inl le ↦
        let first : m.version < x.version = ground (arith, le, n.0) in
        rw le ((first, All-mono _ _ ms (λ y lt. omega (arith, first, lt)) s.0), s)
    | inr gt ↦ rw gt (
      All-insert (λ y. x.version < y.version) m ms (ground (arith, gt)) s.0,
      insert-IsAscending m ms n.1 s.1,
    )
  ]

  sort-IsAscending : (ms : List (Migration S C)) → IsDistinct ms → IsAscending (sort ms)
  unfolding sort
  sort-IsAscending [] d = tt
  sort-IsAscending (m ∷ ms) d =
      insert-IsAscending m (sort ms) (All-sort _ ms d.0) (sort-IsAscending ms d.1)

module _ {S C : Type 0} (checksum : S → C) where
  unseen :
      (versions : List ℕ) (v : ℕ) (ms : List (Migration S C))
      → All (λ m. seen m.version (v ∷ versions) ≡ false) ms
      → All (λ m. m.version ≢ v) ms × All (λ m. seen m.version versions ≡ false) ms
  unseen versions v [] a = (tt, tt)
  unseen versions v (m ∷ ms) a =
      let (rest, older) = unseen versions v ms a.1 in
      ((ground (arith, a.0), rest), (ground (arith, a.0), older))

  -- What was read has new versions, none of them twice.
  abbrev IsNew : List ℕ → Option (List (Migration S C)) → Type 0
  IsNew versions none = Unit
  IsNew versions (some ms) = All (λ m. seen m.version versions ≡ false) ms × IsDistinct ms

  map-IsNew :
      (versions : List ℕ) (m : Migration S C) (rest : Option (List (Migration S C)))
      → seen m.version versions ≡ false
      → IsNew (m.version ∷ versions) rest
      → IsNew versions (Option.map (λ ms. m ∷ ms) rest)
  map-IsNew versions m none new r = tt
  map-IsNew versions m (some ms) new (fresh, distinct) =
      let (other, older) = unseen versions m.version ms fresh in ((new, older), (other, distinct))

  read_files-IsNew :
      (versions : List ℕ) (files : List (MigrationFile S))
      → IsNew versions (read_files checksum versions files)
  unfolding read_files
  read_files-IsNew versions [] = (tt, tt)
  read_files-IsNew versions (f ∷ files) = elim (Option-cases f.matched) [
    | inl bad ↦ rw (bad, read_files) tt
    | inr ((version, name), ok) ↦ elim (Bool-cases (seen version versions)) [
      | inl again ↦ rw (ok, read_files) (rw again tt)
      | inr new ↦
          rw (ok, read_files)
            (rw new (
              map-IsNew versions (migration checksum f version name) _ new
                (read_files-IsNew (version ∷ versions) files)))
    ]
  ]

  loaded :
      (files : List (MigrationFile S)) (ms : List (Migration S C))
      (read : Option (List (Migration S C)))
      → IsNew [] read
      → Option.map sort read ≡ some ms
      → IsAscending ms
  loaded files ms none new e = absurd (ground (arith, e))
  loaded files ms (some xs) (fresh, distinct) e =
      let same : sort xs ≡ ms = ground (arith, e) in
      subst IsAscending same (sort-IsAscending xs distinct)

  -- Whatever files `load_migrations` accepts, their migrations come in strictly ascending order of
  -- version, so none comes twice.
  pub load_migrations-IsAscending :
      (files : List (MigrationFile S)) (ms : List (Migration S C))
      → load_migrations checksum files ≡ some ms
      → IsAscending ms
  unfolding load_migrations
  load_migrations-IsAscending files ms e =
      loaded files ms (read_files checksum [] files) (read_files-IsNew [] files) e
