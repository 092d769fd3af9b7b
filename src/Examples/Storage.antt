-- ===== src/Examples/Storage.antt =====
-- Migrations from a relative path, on a platform whose working directory is the root.
use Prim.Native.String.{◌++◌}
use ofm_auth_service.Prelude.Text.{cut_prefix}
use ofm_auth_service.Prelude.{none, not, is_none, ◌≡◌, refl, ap, sym, ◌∙◌}
use ofm_auth_service.Prelude.Int.{pos}
use ofm_auth_service.Action.{value}
use ofm_auth_service.Config.{DbConfig}
use ofm_auth_service.Config.Defaults.{default_db}
use ofm_auth_service.Storage.{Platform, Migrator, no_change, run_migrations}
use ofm_auth_service.Storage.Migrations.{
  GivesAbsolute, IsMigrated, cut_prefix-append, run_migrations-IsMigrated,
}

abbrev pub root_platform : Platform
root_platform = record {
  decimal = λ n. "5432";
  query_escape = λ s. s;
  is_abs = λ s. not (is_none (cut_prefix "/" s));
  abs = λ s. value ("/" ++ s);
}

abbrev pub settled : Migrator
settled = record { create_error = λ path dsn. none; up = λ path dsn. no_change }

abbrev pub test_db_cfg : DbConfig
test_db_cfg = default_db "db" (pos 5432) "auth" "secret" "auth"

gives_absolute : GivesAbsolute root_platform
gives_absolute p q e =
    let same : "/" ++ p ≡ q = cc e in
    ap (λ s. not (is_none (cut_prefix "/" s))) (sym same)
    ∙ ap (λ o. not (is_none o)) (cut_prefix-append "/" p)

migrated : run_migrations root_platform settled test_db_cfg ≡ none
unfolding run_migrations default_db
migrated = refl

run_migrations-IsMigrated_example : IsMigrated root_platform settled test_db_cfg
run_migrations-IsMigrated_example =
    run_migrations-IsMigrated root_platform settled test_db_cfg gives_absolute migrated
