-- ===== src/Migrations/Build.antt =====
-- The table that `build_migrations` makes: under each version stands the migration that follows.
use inx_chronicle.Common.{ℕ, Option, none, some, List, [], ◌∷◌, ◌++◌, ◌≡◌, ◌≢◌, refl, ◌∙◌, arith}
use inx_chronicle.Common.Dict.{Dict, lookup, insert, lookup-insert}
use inx_chronicle.Migrations.{DynMigration, option_beq_iff, option_eq, build_from, build_migrations}

module _ {Date Data E : Type 0} where
  -- the version after the migrations, from the version before them
  abbrev pub last_of : Option ℕ → List (DynMigration Date Data E) → Option ℕ
  last_of prev [] = prev
  last_of prev (m ∷ ms) = last_of (some m.version.id) ms

  -- no migration of the list has this version
  abbrev pub IsFresh : Option ℕ → List (DynMigration Date Data E) → Type 0
  IsFresh k [] = Unit
  IsFresh k (m ∷ ms) = (k ≢ some m.version.id) × IsFresh k ms

  abbrev pub HasDistinctIds : List (DynMigration Date Data E) → Type 0
  HasDistinctIds [] = Unit
  HasDistinctIds (m ∷ ms) = IsFresh (some m.version.id) ms × HasDistinctIds ms

  -- the table leads from one migration of the list to the next
  abbrev pub Leads :
      Option ℕ
      → Dict (Option ℕ) (DynMigration Date Data E)
      → List (DynMigration Date Data E)
      → Type 0
  Leads k table [] = Unit
  Leads k table (m ∷ ms) = (lookup k table ≡ some m) × Leads (some m.version.id) table ms

  pub none-IsFresh : (ms : List (DynMigration Date Data E)) → IsFresh none ms
  none-IsFresh [] = tt
  none-IsFresh (m ∷ ms) = ((λ e. cc), none-IsFresh ms)

  insert_other :
      (k prev : Option ℕ) (m : DynMigration Date Data E)
      (table : Dict (Option ℕ) (DynMigration Date Data E))
      → k ≢ prev
      → lookup k (insert prev m table) ≡ lookup k table
  insert_other k prev m table h =
      ground (arith, lookup-insert k prev m table, option_beq_iff k prev)

  pub lookup-build_from_fresh :
      (k prev : Option ℕ) (table : Dict (Option ℕ) (DynMigration Date Data E))
      (ms : List (DynMigration Date Data E))
      → k ≢ prev
      → IsFresh k ms
      → lookup k (build_from prev table ms) ≡ lookup k table
  unfolding build_from
  lookup-build_from_fresh k prev table [] h fresh = refl
  lookup-build_from_fresh k prev table (m ∷ ms) h fresh =
      lookup-build_from_fresh k (some m.version.id) (insert prev m table) ms fresh.0 fresh.1
      ∙ insert_other k prev m table h

  pub build_from-Leads :
      (prev : Option ℕ) (table : Dict (Option ℕ) (DynMigration Date Data E))
      (ms : List (DynMigration Date Data E))
      → IsFresh prev ms
      → HasDistinctIds ms
      → Leads prev (build_from prev table ms) ms
  unfolding build_from
  build_from-Leads prev table [] fresh distinct = tt
  build_from-Leads prev table (m ∷ ms) fresh distinct = (
    lookup-build_from_fresh prev (some m.version.id) (insert prev m table) ms fresh.0 fresh.1
        ∙ ground (arith, lookup-insert prev prev m table, option_beq_iff prev prev),
    build_from-Leads (some m.version.id) (insert prev m table) ms distinct.0 distinct.1,
  )

  pub Leads-drop :
      (prev : Option ℕ) (table : Dict (Option ℕ) (DynMigration Date Data E))
      (before after : List (DynMigration Date Data E))
      → Leads prev table (before ++ after)
      → Leads (last_of prev before) table after
  Leads-drop prev table [] after h = h
  Leads-drop prev table (m ∷ before) after h = Leads-drop (some m.version.id) table before after h.1

  pub IsFresh-drop :
      (prev : Option ℕ) (before after : List (DynMigration Date Data E))
      → IsFresh prev (before ++ after)
      → HasDistinctIds (before ++ after)
      → IsFresh (last_of prev before) after
  IsFresh-drop prev [] after fresh distinct = fresh
  IsFresh-drop prev (m ∷ before) after fresh distinct =
      IsFresh-drop (some m.version.id) before after distinct.0 distinct.1

  pub HasDistinctIds-drop :
      (before after : List (DynMigration Date Data E))
      → HasDistinctIds (before ++ after)
      → HasDistinctIds after
  HasDistinctIds-drop [] after h = h
  HasDistinctIds-drop (m ∷ before) after h = HasDistinctIds-drop before after h.1

  pub last_of-append :
      (prev : Option ℕ) (before after : List (DynMigration Date Data E))
      → last_of prev (before ++ after) ≡ last_of (last_of prev before) after
  last_of-append prev [] after = refl
  last_of-append prev (m ∷ before) after = last_of-append (some m.version.id) before after

  -- a fresh version is not the one that the migrations end at
  pub IsFresh-last_of :
      (k : Option ℕ) (m : DynMigration Date Data E) (ms : List (DynMigration Date Data E))
      → IsFresh k (m ∷ ms)
      → k ≢ last_of (some m.version.id) ms
  IsFresh-last_of k m [] h = h.0
  IsFresh-last_of k m (n ∷ ms) h = IsFresh-last_of k n ms h.1

  pub build_migrations-Leads :
      (before after : List (DynMigration Date Data E))
      → HasDistinctIds (before ++ after)
      → Leads (last_of none before) (build_migrations (before ++ after)) after
  unfolding build_migrations
  build_migrations-Leads before after distinct =
      Leads-drop none (build_migrations (before ++ after)) before after
        (build_from-Leads none [] (before ++ after) (none-IsFresh (before ++ after)) distinct)
