-- ===== src/Nats/Errors.antt =====
-- The texts of nats/error.go and pkg/messaging/nats/error.go; `%q` is a parameter.
use Prim.Native.String.{◌++◌}
use ofm_auth_service.Prelude.{String}
use ofm_auth_service.Nats.PullConsumer.{
  ConfigError, empty_stream_name, empty_subject, empty_durable_name, invalid_batch_size,
  invalid_max_wait, invalid_worker_count, invalid_queue_size, invalid_ack_wait, invalid_max_deliver,
  invalid_adaptive_check_interval, invalid_adaptive_thresholds, invalid_adaptive_plan,
}
use ofm_auth_service.Nats.Client.{
  NatsError, empty_nats_url, nil_logger, nil_broker, nil_auth_service, nil_failure_reason_resolver,
  connect_error, init_jet_stream_error, flush_error, publish_error, subscribe_error,
  ensure_stream_error, ensure_consumer_error, pull_subscriber_error, config_error,
}

-- The texts of the configuration's errors.
unfoldable pub config_text : ConfigError → String
config_text empty_stream_name = "stream name is empty"
config_text empty_subject = "subject is empty"
config_text empty_durable_name = "durable name is empty"
config_text invalid_batch_size = "batch size must be greater than zero"
config_text invalid_max_wait = "max wait must be greater than zero"
config_text invalid_worker_count = "worker count must be greater than zero"
config_text invalid_queue_size = "queue size must be greater than zero"
config_text invalid_ack_wait = "ack wait must be greater than zero"
config_text invalid_max_deliver = "max deliver must be greater than zero"
config_text invalid_adaptive_check_interval = "adaptive check interval must be greater than zero"
config_text invalid_adaptive_thresholds = "adaptive thresholds must satisfy: high > medium >= 0"
config_text invalid_adaptive_plan =
    "adaptive plan batch size and max wait must be greater than zero"

-- err.Error() behind the Wrap functions.
unfoldable pub error_text : (String → String) → NatsError → String
unfolding config_text
error_text q empty_nats_url = "nats url is empty"
error_text q nil_logger = "logger is nil"
error_text q nil_broker = "event broker is nil"
error_text q nil_auth_service = "auth service is nil"
error_text q nil_failure_reason_resolver = "failure reason resolver is nil"
error_text q (connect_error e) = "connect to nats: " ++ e
error_text q (init_jet_stream_error e) = "init jetstream context: " ++ e
error_text q (flush_error e) = "flush nats publisher: " ++ e
error_text q (publish_error subject e) = "publish to nats (" ++ subject ++ "): " ++ e
error_text q (subscribe_error subject e) = "subscribe to nats (" ++ subject ++ "): " ++ e
error_text q (ensure_stream_error stream added updated) =
    "ensure stream " ++ q stream ++ ": add err=" ++ added ++ ", update err=" ++ updated
error_text q (ensure_consumer_error stream durable added updated) =
    "ensure consumer "
    ++ q durable
    ++ " in stream "
    ++ q stream
    ++ ": add err="
    ++ added
    ++ ", update err="
    ++ updated
error_text q (pull_subscriber_error subject durable e) =
    "create pull subscriber subject=" ++ q subject ++ " durable=" ++ q durable ++ ": " ++ e
error_text q (config_error e) = config_text e
