-- ===== src/Config.antt =====
-- config: the settings of the service and Load. The parsing of the environment is a library call.
-- Go's `int` and `time.Duration` are signed.
pub mod Defaults
use Prim.Native.String.{◌++◌}
use ofm_auth_service.Prelude.{String, Bool, List, Option, none, some}
use ofm_auth_service.Prelude.Int.{ℤ}
use ofm_auth_service.Domain.{Duration}

pub record JwtConfig : Type 0 where
  pub access_secret : String
  pub refresh_secret : String
  pub issuer : String
  pub access_token_ttl : Duration
  pub refresh_token_ttl : Duration
  pub refresh_token_bytes : ℤ

pub record KafkaConfig : Type 0 where
  pub brokers : List String
  pub group_id : String
  pub create_topic : String
  pub delete_topic : String
  pub create_result_topic : String
  pub delete_result_topic : String
  pub mail_topic : String
  pub dead_letter_topic : String
  pub recovery_topic : String
  pub recovery_group : String
  pub recovery_completed : String

pub record NatsConfig : Type 0 where
  pub url : String
  pub user : String
  pub password : String
  pub auth_events_stream : String
  pub mail_commands_stream : String
  pub auth_created_subject : String
  pub saga_commands_stream : String
  pub saga_create_auth_subject : String
  pub saga_delete_auth_subject : String
  pub saga_create_auth_result_subject : String
  pub saga_delete_auth_result_subject : String
  pub mail_send_subject : String
  pub saga_create_auth_durable : String
  pub saga_delete_auth_durable : String
  pub saga_batch_size : ℤ
  pub saga_max_wait : Duration
  pub saga_workers : ℤ
  pub saga_queue_size : ℤ
  pub saga_ack_wait : Duration
  pub saga_max_deliver : ℤ
  pub saga_adaptive_enabled : Bool
  pub saga_adaptive_check_interval : Duration
  pub saga_adaptive_medium_pending : ℤ
  pub saga_adaptive_high_pending : ℤ
  pub saga_adaptive_low_batch_size : ℤ
  pub saga_adaptive_low_max_wait : Duration
  pub saga_adaptive_medium_batch_size : ℤ
  pub saga_adaptive_medium_max_wait : Duration
  pub saga_adaptive_high_batch_size : ℤ
  pub saga_adaptive_high_max_wait : Duration

pub record PullAdaptiveConfig : Type 0 where
  pub enabled : Bool
  pub check_interval : Duration
  pub medium_pending : ℤ
  pub high_pending : ℤ
  pub low_batch_size : ℤ
  pub low_max_wait : Duration
  pub medium_batch_size : ℤ
  pub medium_max_wait : Duration
  pub high_batch_size : ℤ
  pub high_max_wait : Duration

pub record PullConsumerConfig : Type 0 where
  pub group_id : String
  pub stream : String
  pub subject : String
  pub durable : String
  pub batch_size : ℤ
  pub max_wait : Duration
  pub workers : ℤ
  pub queue_size : ℤ
  pub ack_wait : Duration
  pub max_deliver : ℤ
  pub adaptive : PullAdaptiveConfig

pub record DbConfig : Type 0 where
  pub host : String
  pub port : ℤ
  pub user : String
  pub password : String
  pub name : String
  pub ssl_mode : String
  pub max_open_conns : ℤ
  pub max_idle_conns : ℤ
  pub conn_max_lifetime : Duration
  pub migrations_path : String
  pub migrations_table : String

pub record AppConfig : Type 0 where
  pub env : String
  pub log_level : String
  pub observability_mode : String

pub record GrpcConfig : Type 0 where
  pub host : String
  pub port : ℤ

pub record MetricsConfig : Type 0 where
  pub enabled : Bool
  pub host : String
  pub port : ℤ
  pub path : String

pub record Config : Type 0 where
  pub app : AppConfig
  pub db : DbConfig
  pub grpc : GrpcConfig
  pub metrics : MetricsConfig
  pub nats : NatsConfig
  pub kafka : KafkaConfig
  pub jwt : JwtConfig

-- What Load returns: the settings, or the text of its error.
pub data Loaded : Type 0 where
  loaded : Config → Loaded
  load_failed : String → Loaded

-- Load, with the error of env.Parse or the settings that it has read.
unfoldable pub load : Option String → Config → Loaded
load (some e) cfg = load_failed ("parse env config: " ++ e)
load none cfg = loaded cfg
