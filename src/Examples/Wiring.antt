-- ===== src/Examples/Wiring.antt =====
-- A start of the whole process in which everything answers.
use ofm_auth_service.Prelude.Text.{cut_prefix}
use ofm_auth_service.Prelude.{none, [], ◌≡◌, refl, arith}
use ofm_auth_service.Config.{load}
use ofm_auth_service.Config.Defaults.{
  default_app, default_db, default_grpc, default_metrics, default_nats,
}
use ofm_auth_service.Storage.{run_migrations, open_db}
use ofm_auth_service.Kafka.Subscription.{new_broker, new_saga_subscriber, new_recovery_subscriber}
use ofm_auth_service.Grpc.Server.{new_server}
use ofm_auth_service.Wiring.{
  Part, config, logger, metrics, database, event_broker, translator, repository, service,
  saga_subscriber, recovery_subscriber, grpc_server, metrics_listener, start_log, migrations,
  saga_consumer, recovery_consumer, grpc_listener, Process, called, hook_of, call, new_service,
  new_repository,
}
use ofm_auth_service.Wiring.Container.{Has, itself, Startup, at_start, StartsTo}
use ofm_auth_service.Wiring.Complete.{state, all_parts, start_completes}
use ofm_auth_service.Wiring.Migrated.{migrated_first}
use ofm_auth_service.Wiring.Stopping.{IsSafeOrder, drop, stop_order_safe}
use ofm_auth_service.Examples.{test_cfg}
use ofm_auth_service.Examples.Events.{topics}
use ofm_auth_service.Examples.Storage.{root_platform, settled, test_db_cfg}

abbrev answering : Process
answering = record {
  cfg = record {
    app = default_app;
    db = test_db_cfg;
    grpc = default_grpc;
    metrics = default_metrics;
    nats = default_nats;
    kafka = topics;
    jwt = test_cfg;
  };
  parse_error = none;
  logger_error = none;
  platform = root_platform;
  migrator = settled;
  register_error = none;
  connect_error = λ dsn. none;
  new_signer = λ secret. none;
}

works : (part : Part) → call answering part ≡ called (hook_of part)
unfolding call hook_of load run_migrations open_db new_broker new_service new_repository
    new_saga_subscriber new_recovery_subscriber new_server cut_prefix default_db
works config = refl
works logger = refl
works metrics = refl
works database = refl
works event_broker = refl
works translator = refl
works repository = refl
works service = refl
works saga_subscriber = refl
works recovery_subscriber = refl
works grpc_server = refl
works metrics_listener = refl
works start_log = refl
works migrations = refl
works saga_consumer = refl
works recovery_consumer = refl
works grpc_listener = refl

abbrev started : Startup
started = state answering works (all_parts answering works) []

start_completes_example : StartsTo answering at_start started
start_completes_example = start_completes answering works

started_up : StartsTo answering at_start started
started_up = start_completes answering works

Has-database : Has database started.parts
Has-database = ground arith

migrated_first_example :
    Has migrations started.parts
    × (run_migrations answering.platform answering.migrator answering.cfg.db ≡ none)
migrated_first_example = migrated_first answering started database itself started_up Has-database

stop_order_safe_example : IsSafeOrder (drop 1 started.hooks)
stop_order_safe_example = stop_order_safe answering started 1 started_up
