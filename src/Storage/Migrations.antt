-- ===== src/Storage/Migrations.antt =====
-- What RunMigrations has done where it returns no error.
use Prim.Native.String.{◌++◌}
use Prim.Native.String.append.{nil, cons}
use ofm_auth_service.Prelude.Text.{cut_prefix}
use ofm_auth_service.Prelude.{
  String, true, false, Option, none, some, ◌≡◌, ◌⊎◌, inl, inr, refl, arith, if-eq,
}
use ofm_auth_service.Action.{Reply, value, failure}
use ofm_auth_service.Config.{DbConfig}
use ofm_auth_service.Storage.{
  Platform, Migrator, UpAnswer, changed, no_change, up_failed, made_absolute, prefixed,
  migration_path, run_migrations, with_path, after_migrator, after_up, migrations_dsn,
}

pub cut_prefix-append : (p s : String) → cut_prefix p (p ++ s) ≡ some s
unfolding cut_prefix
cut_prefix-append String.[] s = rw (nil s) refl
cut_prefix-append (String.◌∷◌ c p) s = rw (cons c p s) (ground (arith, cut_prefix-append p s))

module _ (os : Platform) where
  -- Abs gives absolute paths.
  abbrev pub GivesAbsolute : Type 0
  GivesAbsolute = (p q : String) → os.abs p ≡ value q → os.is_abs q ≡ true

  -- The path that the migrator gets: one without the file scheme as it is configured, else one that
  -- is absolute, as it is configured or made so by Abs.
  abbrev pub IsResolved : String → String → Type 0
  IsResolved given path =
      ((cut_prefix "file://" given ≡ none) × (path ≡ given))
      ⊎ ((raw : String) × (cut_prefix "file://" given ≡ some raw)
          × (((os.is_abs raw ≡ true) × (path ≡ given))
              ⊎ ((p : String) × (os.is_abs raw ≡ false)
                  × (os.abs raw ≡ value p)
                  × (os.is_abs p ≡ true)
                  × (path ≡ "file://" ++ p))))

  made_absolute-IsResolved :
      (path : String) (o : Option String) (out : String)
      → GivesAbsolute
      → cut_prefix "file://" path ≡ o
      → made_absolute os path o ≡ value out
      → IsResolved path out
  made_absolute-IsResolved path none out abs q e = inl (q, cc e)
  made_absolute-IsResolved path (some r) out abs q e = inr (
    r,
    q,
    elim (if-eq (os.is_abs r) (value path) (prefixed os (os.abs r)) e) [
      | inl (absolute, same) ↦ inl (absolute, cc same)
      | inr (relative, made) ↦ inr (from_abs relative (os.abs r) refl made)
    ],
  )
    where
      from_abs :
          os.is_abs r ≡ false
          → (a : Reply String) → os.abs r ≡ a
          → prefixed os a ≡ value out
          → (p : String) × (os.is_abs r ≡ false)
            × (os.abs r ≡ value p)
            × (os.is_abs p ≡ true)
            × (out ≡ "file://" ++ p)
      from_abs relative (failure x) q' e' = absurd (cc e')
      from_abs relative (value p) q' e' = (p, relative, q', abs r p q', cc e')

  -- The migrator was made and has run, or had nothing to do, for the resolved path.
  abbrev pub IsMigrated : Migrator → DbConfig → Type 0
  IsMigrated m cfg =
      (path : String) × IsResolved cfg.migrations_path path
      × (m.create_error path (migrations_dsn os cfg) ≡ none)
      × ((m.up path (migrations_dsn os cfg) ≡ changed)
          ⊎ (m.up path (migrations_dsn os cfg) ≡ no_change))

  up-eq-none : (u : UpAnswer) → after_up os u ≡ none → (u ≡ changed) ⊎ (u ≡ no_change)
  up-eq-none changed e = inl refl
  up-eq-none no_change e = inr refl
  up-eq-none (up_failed x) e = absurd (cc e)

  create-eq-none :
      (m : Migrator) (path dsn : String) (o : Option String)
      → after_migrator os m path dsn o ≡ none
      → (o ≡ none) × ((m.up path dsn ≡ changed) ⊎ (m.up path dsn ≡ no_change))
  create-eq-none m path dsn (some x) e = absurd (cc e)
  create-eq-none m path dsn none e = (refl, up-eq-none (m.up path dsn) e)

  path-eq-none :
      (m : Migrator) (cfg : DbConfig) (r : Reply String)
      → GivesAbsolute
      → migration_path os cfg.migrations_path ≡ r
      → with_path os m (migrations_dsn os cfg) r ≡ none
      → IsMigrated m cfg
  unfolding migration_path
  path-eq-none m cfg (failure x) abs q e = absurd (cc e)
  path-eq-none m cfg (value path) abs q e =
      let (created, ran) = create-eq-none m path _ _ e in
      (
        path,
        made_absolute-IsResolved cfg.migrations_path (cut_prefix "file://" cfg.migrations_path) path
            abs refl q,
        created,
        ran,
      )

  -- If Abs gives absolute paths, then a RunMigrations that returns no error has made the migrator for
  -- the configured path, where that has no file scheme or is absolute behind it, and else for the file
  -- scheme and the absolute path that Abs makes of the rest, and Up has migrated the schema or found
  -- nothing to change.
  pub run_migrations-IsMigrated :
      (m : Migrator) (cfg : DbConfig)
      → GivesAbsolute
      → run_migrations os m cfg ≡ none
      → IsMigrated m cfg
  unfolding run_migrations
  run_migrations-IsMigrated m cfg abs e = path-eq-none m cfg _ abs refl e
