-- ===== src/Wiring.antt =====
-- internal/fx and cmd/auth-service/main.go: the parts of the process, what each function of the
-- package takes and what it does when the container calls it. Constructing a logger, a meter and a
-- signer and env.Parse are library calls: their errors are parameters.
pub mod Container
pub mod Migrated
pub mod Stopping
pub mod Complete
use ofm_auth_service.Prelude.{
  String, Bool, true, false, Option, none, some, List, [], ◌∷◌, inl, inr, if◌then◌else◌,
}
use ofm_auth_service.Config.{Config, loaded, load_failed, load, JwtConfig}
use ofm_auth_service.Storage.{Platform, Migrator, StorageError, open_db, run_migrations}
use ofm_auth_service.Kafka.Subscription.{new_broker, new_saga_subscriber, new_recovery_subscriber}
use ofm_auth_service.Grpc.Server.{ServerError, new_server}

-- The values that the functions provide, and the functions that are invoked.
pub data Part : Type 0 where
  config logger metrics database event_broker translator repository service : Part
  saga_subscriber recovery_subscriber grpc_server : Part
  metrics_listener start_log migrations saga_consumer recovery_consumer grpc_listener : Part

-- The parameters of each function but the life cycle and the context.
unfoldable pub needs : Part → List Part
needs config = []
needs logger = config ∷ []
needs metrics = config ∷ []
needs database = config ∷ logger ∷ []
needs event_broker = config ∷ database ∷ logger ∷ []
needs translator = []
needs repository = database ∷ translator ∷ []
needs service = repository ∷ config ∷ logger ∷ []
needs saga_subscriber = event_broker ∷ service ∷ config ∷ logger ∷ []
needs recovery_subscriber = event_broker ∷ service ∷ config ∷ logger ∷ []
needs grpc_server = service ∷ config ∷ logger ∷ []
needs metrics_listener = config ∷ metrics ∷ logger ∷ []
needs start_log = logger ∷ []
needs migrations = config ∷ logger ∷ []
needs saga_consumer = saga_subscriber ∷ config ∷ logger ∷ []
needs recovery_consumer = recovery_subscriber ∷ logger ∷ []
needs grpc_listener = grpc_server ∷ []

-- The Invokes of the modules, in the order of main.
abbrev pub invokes : List Part
invokes =
    metrics_listener ∷ start_log ∷ migrations ∷ saga_consumer ∷ recovery_consumer ∷ grpc_listener
    ∷ []

-- What an OnStop hook does.
pub data Hook : Type 0 where
  sync_logger cancel_metrics close_database close_broker : Hook
  cancel_saga cancel_recovery shutdown_grpc : Hook

-- The hook that a part has behind its call.
unfoldable pub hook_of : Part → Option Hook
hook_of logger = some sync_logger
hook_of database = some close_database
hook_of event_broker = some close_broker
hook_of metrics_listener = some cancel_metrics
hook_of saga_consumer = some cancel_saga
hook_of recovery_consumer = some cancel_recovery
hook_of grpc_listener = some shutdown_grpc
hook_of config = none
hook_of metrics = none
hook_of translator = none
hook_of repository = none
hook_of service = none
hook_of saga_subscriber = none
hook_of recovery_subscriber = none
hook_of grpc_server = none
hook_of start_log = none
hook_of migrations = none

-- The errors of New in application/service.go.
pub data ServiceError : Type 0 where
  nil_auth_repository nil_service_logger : ServiceError
  signer_failed : String → ServiceError

-- New of application/service.go, up to its error: whether the repository and the logger are not nil,
-- and the error of NewSigner for a secret.
unfoldable pub new_service :
    Bool → Bool → (String → Option String) → JwtConfig → Option ServiceError
new_service false has_logger new_signer cfg = some nil_auth_repository
new_service true false new_signer cfg = some nil_service_logger
new_service true true new_signer cfg = elim (new_signer cfg.access_secret) [
  | none ↦ none
  | some e ↦ some (signer_failed e)
]

-- The errors of New in infra/write/postgres/repository.go.
pub data RepositoryError : Type 0 where
  nil_postgres_db nil_db_error_translator : RepositoryError

-- New of infra/write/postgres/repository.go, up to its error.
unfoldable pub new_repository : Bool → Bool → Option RepositoryError
new_repository false has_translator = some nil_postgres_db
new_repository true false = some nil_db_error_translator
new_repository true true = none

-- The settings that the environment holds and the answers of the libraries.
pub record Process : Type 0 where
  pub cfg : Config
  pub parse_error : Option String  -- env.Parse
  pub logger_error : Option String  -- logging.NewWithMode
  pub platform : Platform
  pub migrator : Migrator
  pub register_error : Option String  -- otelsql.Register
  pub connect_error : String → Option String  -- sqlx.Connect
  pub new_signer : String → Option String  -- commonjwt.NewSigner

-- The error that a function returns when it is called with values of its parameters.
pub data StartError : Type 0 where
  config_failed logger_failed broker_failed subscriber_failed : String → StartError
  storage_failed : StorageError → StartError
  repository_failed : RepositoryError → StartError
  service_failed : ServiceError → StartError
  server_failed : ServerError → StartError

-- metrics.NewNoop() and metrics.New("auth-service", env).
pub data Meter : Type 0 where
  noop : Meter
  recorder : String → String → Meter

-- ProvideMetrics, which has no error: the meter that it installs and provides.
unfoldable pub provide_metrics : Bool → String → Meter
provide_metrics enabled env = if enabled then recorder "auth-service" env else noop

-- How a function ends: with an error, or with the hook that it has appended, if any.
pub data Called : Type 0 where
  refused : StartError → Called
  called : Option Hook → Called

abbrev pub behind : {A : Type 0} → (A → StartError) → Option Hook → Option A → Called
behind wrap hook none = called hook
behind wrap hook (some e) = refused (wrap e)

-- Each function of the package, called with values of its parameters, none of which is nil.
module _ (p : Process) where
  unfoldable pub provide_config : Called
  provide_config = elim (load p.parse_error p.cfg) [
    | loaded cfg ↦ called none
    | load_failed e ↦ refused (config_failed e)
  ]

  unfoldable pub provide_logger : Called
  provide_logger = behind logger_failed (some sync_logger) p.logger_error

  unfoldable pub provide_postgres_db : Called
  provide_postgres_db =
      behind storage_failed (some close_database)
        (open_db p.platform p.register_error p.connect_error p.cfg.db)

  unfoldable pub invoke_run_migrations : Called
  invoke_run_migrations = behind storage_failed none (run_migrations p.platform p.migrator p.cfg.db)

  unfoldable pub provide_event_broker : Called
  provide_event_broker = behind broker_failed (some close_broker) (new_broker p.cfg.kafka.brokers)

  unfoldable pub provide_write_repo : Called
  provide_write_repo = behind repository_failed none (new_repository true true)

  unfoldable pub provide_auth_service : Called
  provide_auth_service = behind service_failed none (new_service true true p.new_signer p.cfg.jwt)

  unfoldable pub provide_registration_saga_subscriber : Called
  provide_registration_saga_subscriber =
      behind subscriber_failed none (new_saga_subscriber true true true)

  unfoldable pub provide_auth_recovery_subscriber : Called
  provide_auth_recovery_subscriber =
      behind subscriber_failed none (new_recovery_subscriber true true true)

  unfoldable pub provide_grpc_server : Called
  provide_grpc_server = elim (new_server true true) [
    | inl e ↦ refused (server_failed e)
    | inr s ↦ called none
  ]

  -- InvokeRunMetricsServer, InvokeSubscribeRegistrationSaga, InvokeSubscribeAuthRecovery and
  -- InvokeRunGRPCServer start a goroutine each when the start is complete, and have no error.
  abbrev pub invoke_run_metrics_server : Called
  invoke_run_metrics_server = called (some cancel_metrics)

  abbrev pub invoke_subscribe_registration_saga : Called
  invoke_subscribe_registration_saga = called (some cancel_saga)

  abbrev pub invoke_subscribe_auth_recovery : Called
  invoke_subscribe_auth_recovery = called (some cancel_recovery)

  abbrev pub invoke_run_grpc_server : Called
  invoke_run_grpc_server = called (some shutdown_grpc)

  unfoldable pub call : Part → Called
  unfolding provide_config provide_logger provide_postgres_db invoke_run_migrations
      provide_event_broker provide_write_repo provide_auth_service
      provide_registration_saga_subscriber provide_auth_recovery_subscriber provide_grpc_server
  call config = provide_config
  call logger = provide_logger
  call metrics = called none
  call database = provide_postgres_db
  call event_broker = provide_event_broker
  call translator = called none
  call repository = provide_write_repo
  call service = provide_auth_service
  call saga_subscriber = provide_registration_saga_subscriber
  call recovery_subscriber = provide_auth_recovery_subscriber
  call grpc_server = provide_grpc_server
  call metrics_listener = invoke_run_metrics_server
  call start_log = called none
  call migrations = invoke_run_migrations
  call saga_consumer = invoke_subscribe_registration_saga
  call recovery_consumer = invoke_subscribe_auth_recovery
  call grpc_listener = invoke_run_grpc_server
