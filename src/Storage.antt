-- ===== src/Storage.antt =====
-- pkg/storage/postgres: the connection of yugabyte.go and the migrations of migrate.go. The
-- driver, the migration library, filepath and the escaping of url are parameters.
pub mod Migrations
use Prim.Native.String.{◌++◌}
use ofm_auth_service.Prelude.Text.{cut_prefix}
use ofm_auth_service.Prelude.{String, Bool, Option, none, some, if◌then◌else◌}
use ofm_auth_service.Prelude.Int.{ℤ}
use ofm_auth_service.Config.{DbConfig}
use ofm_auth_service.Action.{Reply, value, failure}

-- The errors of error.go, with what they wrap.
pub data StorageError : Type 0 where
  open_failed resolve_failed create_failed run_failed : String → StorageError

-- err.Error() behind the Wrap functions.
unfoldable pub storage_text : StorageError → String
storage_text (open_failed e) = "open db: " ++ e
storage_text (resolve_failed e) = "resolve migrations path: " ++ e
storage_text (create_failed e) = "create migrator: " ++ e
storage_text (run_failed e) = "run migrations: " ++ e

-- fmt's "%d", url.QueryEscape, and filepath.IsAbs and filepath.Abs.
pub record Platform : Type 0 where
  pub decimal : ℤ → String
  pub query_escape : String → String
  pub is_abs : String → Bool
  pub abs : String → Reply String

-- What Up reports: nil, migrate.ErrNoChange or another error.
pub data UpAnswer : Type 0 where
  changed no_change : UpAnswer
  up_failed : String → UpAnswer

-- migrate.New with its error, and Up, for a source and a database.
pub record Migrator : Type 0 where
  pub create_error : String → String → Option String
  pub up : String → String → UpAnswer

module _ (os : Platform) where
  -- The source name of Open.
  unfoldable pub open_dsn : DbConfig → String
  open_dsn cfg =
      "postgres://"
      ++ cfg.user
      ++ ":"
      ++ cfg.password
      ++ "@"
      ++ cfg.host
      ++ ":"
      ++ os.decimal cfg.port
      ++ "/"
      ++ cfg.name
      ++ "?sslmode="
      ++ cfg.ssl_mode

  -- The source name of RunMigrations.
  unfoldable pub migrations_dsn : DbConfig → String
  migrations_dsn cfg =
      "postgres://"
      ++ os.query_escape cfg.user
      ++ ":"
      ++ os.query_escape cfg.password
      ++ "@"
      ++ cfg.host
      ++ ":"
      ++ os.decimal cfg.port
      ++ "/"
      ++ cfg.name
      ++ "?sslmode="
      ++ cfg.ssl_mode
      ++ "&x-migrations-table="
      ++ os.query_escape cfg.migrations_table

  abbrev prefixed : Reply String → Reply String
  prefixed (value path) = value ("file://" ++ path)
  prefixed (failure e) = failure e

  abbrev made_absolute : String → Option String → Reply String
  made_absolute path none = value path
  made_absolute path (some raw) = if os.is_abs raw then value path else prefixed (os.abs raw)

  -- The path of the migrations, absolute if it is one of the file system.
  unfoldable pub migration_path : String → Reply String
  unfolding cut_prefix
  migration_path path = made_absolute path (cut_prefix "file://" path)

  -- Open, with the errors of otelsql.Register and sqlx.Connect for the source name.
  unfoldable pub open_db : Option String → (String → Option String) → DbConfig → Option StorageError
  unfolding open_dsn
  open_db (some e) connect cfg = some (open_failed e)
  open_db none connect cfg = elim (connect (open_dsn cfg)) [
    | none ↦ none
    | some e ↦ some (open_failed e)
  ]

  abbrev after_up : UpAnswer → Option StorageError
  after_up changed = none
  after_up no_change = none
  after_up (up_failed e) = some (run_failed e)

  abbrev after_migrator : Migrator → String → String → Option String → Option StorageError
  after_migrator m path dsn (some e) = some (create_failed e)
  after_migrator m path dsn none = after_up (m.up path dsn)

  abbrev with_path : Migrator → String → Reply String → Option StorageError
  with_path m dsn (failure e) = some (resolve_failed e)
  with_path m dsn (value path) = after_migrator m path dsn (m.create_error path dsn)

  -- RunMigrations: the error, `none` for nil.
  unfoldable pub run_migrations : Migrator → DbConfig → Option StorageError
  unfolding migrations_dsn migration_path
  run_migrations m cfg = with_path m (migrations_dsn cfg) (migration_path cfg.migrations_path)
