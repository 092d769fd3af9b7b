-- ===== src/Config/Defaults.antt =====
-- The values that the `envDefault` tags of config give where the environment has none. A text without
-- a tag is empty.
use ofm_auth_service.Prelude.{String, ℕ, ◌*◌, true, false, [], ◌∷◌}
use ofm_auth_service.Prelude.Int.{ℤ, pos}
use ofm_auth_service.Config.{
  AppConfig, DbConfig, GrpcConfig, MetricsConfig, JwtConfig, KafkaConfig, NatsConfig,
}

-- time.Second, in nanoseconds.
abbrev second : ℕ
second = 1000000000

abbrev pub default_app : AppConfig
default_app = record { env = "local"; log_level = "info"; observability_mode = "production" }

-- DB_HOST, DB_PORT, DB_USER, DB_PASSWORD and DB_NAME have no value but the environment's.
unfoldable pub default_db :
    (host : String) (port : ℤ) (user : String) (password : String) (name : String) → DbConfig
default_db host port user password name = record {
  host = host;
  port = port;
  user = user;
  password = password;
  name = name;
  ssl_mode = "disable";
  max_open_conns = pos 20;
  max_idle_conns = pos 10;
  conn_max_lifetime = pos (5 * 60 * second);
  migrations_path = "file://migration/postgres";
  migrations_table = "schema_migrations_auth_service";
}

abbrev pub default_grpc : GrpcConfig
default_grpc = record { host = "0.0.0.0"; port = pos 9501 }

abbrev pub default_metrics : MetricsConfig
default_metrics = record { enabled = true; host = "0.0.0.0"; port = pos 9601; path = "/metrics" }

abbrev pub default_jwt : JwtConfig
default_jwt = record {
  access_secret = "local-dev-access-secret-change-me";
  refresh_secret = "local-dev-refresh-secret-change-me";
  issuer = "ofm-auth-service";
  access_token_ttl = pos (15 * 60 * second);
  refresh_token_ttl = pos (720 * 3600 * second);
  refresh_token_bytes = pos 32;
}

abbrev pub default_kafka : KafkaConfig
default_kafka = record {
  brokers = "127.0.0.1:9092" ∷ [];
  group_id = "auth-service";
  create_topic = "saga.auth.create_pending_registration";
  delete_topic = "saga.auth.delete";
  create_result_topic = "saga.auth.create_pending_registration.result";
  delete_result_topic = "saga.auth.delete.result";
  mail_topic = "mail.send";
  dead_letter_topic = "auth-service.dead-letter";
  recovery_topic = "migration.recovery.commands.auth";
  recovery_group = "auth-service-recovery";
  recovery_completed = "migration.recovery.completed";
}

abbrev pub default_nats : NatsConfig
default_nats = record {
  url = "";
  user = "";
  password = "";
  auth_events_stream = "AUTH_EVENTS";
  mail_commands_stream = "MAIL_COMMANDS";
  auth_created_subject = "auth.created";
  saga_commands_stream = "SAGA_AUTH_COMMANDS";
  saga_create_auth_subject = "saga.auth.create_pending_registration";
  saga_delete_auth_subject = "saga.auth.delete";
  saga_create_auth_result_subject = "saga.auth.create_pending_registration.result";
  saga_delete_auth_result_subject = "saga.auth.delete.result";
  mail_send_subject = "mail.send";
  saga_create_auth_durable = "auth_service_saga_create_pending_registration";
  saga_delete_auth_durable = "auth_service_saga_delete";
  saga_batch_size = pos 32;
  saga_max_wait = pos (10 * 1000000);
  saga_workers = pos 8;
  saga_queue_size = pos 500;
  saga_ack_wait = pos (30 * second);
  saga_max_deliver = pos 5;
  saga_adaptive_enabled = false;
  saga_adaptive_check_interval = pos (2 * second);
  saga_adaptive_medium_pending = pos 200;
  saga_adaptive_high_pending = pos 1000;
  saga_adaptive_low_batch_size = pos 8;
  saga_adaptive_low_max_wait = pos (25 * 1000000);
  saga_adaptive_medium_batch_size = pos 32;
  saga_adaptive_medium_max_wait = pos (10 * 1000000);
  saga_adaptive_high_batch_size = pos 128;
  saga_adaptive_high_max_wait = pos (2 * 1000000);
}
