-- ===== src/Nats/PullConsumer.antt =====
-- pull_consumer_validator.go, ResolvePullPlan (broker.go), the configuration that
-- saga_registration_subscriber.go builds, and the fetcher's plan in pull_consumer_runtime.go.
-- Logging and metrics are left out; the server's count of pending messages is a parameter.
pub mod Plan
pub mod Runtime
use ofm_auth_service.Prelude.{
  String, Bool, true, false, Option, none, some, not, ◌&&◌, ◌||◌, if◌then◌else◌,
}
use ofm_auth_service.Prelude.Int.{ℤ, pos, ltb_ℤ, leb_ℤ, ◌-ℤ◌, ◌==ℤ◌}
use ofm_auth_service.Prelude.Text.{◌==◌}
use ofm_auth_service.Domain.{Time, Duration}
use ofm_auth_service.Config.{NatsConfig, PullConsumerConfig, PullAdaptiveConfig}

-- The errors of nats/error.go that Validate returns.
pub data ConfigError : Type 0 where
  empty_stream_name empty_subject empty_durable_name : ConfigError
  invalid_batch_size invalid_max_wait invalid_worker_count invalid_queue_size : ConfigError
  invalid_ack_wait invalid_max_deliver : ConfigError
  invalid_adaptive_check_interval invalid_adaptive_thresholds invalid_adaptive_plan : ConfigError

-- `if test { return e }` before the checks that follow.
abbrev refuse_if : Bool → ConfigError → Option ConfigError → Option ConfigError
refuse_if true e rest = some e
refuse_if false e rest = rest

abbrev not_positive : ℤ → Bool
not_positive n = leb_ℤ n (pos 0)

unfoldable pub validate_adaptive : PullAdaptiveConfig → Option ConfigError
validate_adaptive a = refuse_if (not_positive a.check_interval) invalid_adaptive_check_interval (
    refuse_if (ltb_ℤ a.medium_pending (pos 0) || leb_ℤ a.high_pending a.medium_pending)
      invalid_adaptive_thresholds
      (refuse_if
        (not_positive a.low_batch_size
          || not_positive a.low_max_wait
          || not_positive a.medium_batch_size
          || not_positive a.medium_max_wait
          || not_positive a.high_batch_size
          || not_positive a.high_max_wait)
        invalid_adaptive_plan none))

-- Validate; `none` is a nil error.
unfoldable pub validate : PullConsumerConfig → Option ConfigError
unfolding validate_adaptive
validate cfg = refuse_if (cfg.stream == "") empty_stream_name (
    refuse_if (cfg.subject == "") empty_subject (
      refuse_if (cfg.durable == "") empty_durable_name (
        refuse_if (not_positive cfg.batch_size) invalid_batch_size (
          refuse_if (not_positive cfg.max_wait) invalid_max_wait (
            refuse_if (not_positive cfg.workers) invalid_worker_count (
              refuse_if (not_positive cfg.queue_size) invalid_queue_size (
                refuse_if (not_positive cfg.ack_wait) invalid_ack_wait (
                  refuse_if (not_positive cfg.max_deliver) invalid_max_deliver (
                    if not cfg.adaptive.enabled
                    then none
                    else validate_adaptive cfg.adaptive)))))))))

-- The three results of ResolvePullPlan.
pub record PullPlan : Type 0 where
  pub tier : String
  pub batch : ℤ
  pub wait : Duration

unfoldable pub resolve_pull_plan : PullConsumerConfig → ℤ → PullPlan
resolve_pull_plan cfg pending =
    if not cfg.adaptive.enabled
    then record { tier = "base"; batch = cfg.batch_size; wait = cfg.max_wait }
    else if leb_ℤ cfg.adaptive.high_pending pending
    then record {
      tier = "high";
      batch = cfg.adaptive.high_batch_size;
      wait = cfg.adaptive.high_max_wait;
    }
    else if leb_ℤ cfg.adaptive.medium_pending pending
    then record {
      tier = "medium";
      batch = cfg.adaptive.medium_batch_size;
      wait = cfg.adaptive.medium_max_wait;
    }
    else record {
      tier = "low";
      batch = cfg.adaptive.low_batch_size;
      wait = cfg.adaptive.low_max_wait;
    }

unfoldable pub build_adaptive_config : NatsConfig → PullAdaptiveConfig
build_adaptive_config cfg = record {
  enabled = cfg.saga_adaptive_enabled;
  check_interval = cfg.saga_adaptive_check_interval;
  medium_pending = cfg.saga_adaptive_medium_pending;
  high_pending = cfg.saga_adaptive_high_pending;
  low_batch_size = cfg.saga_adaptive_low_batch_size;
  low_max_wait = cfg.saga_adaptive_low_max_wait;
  medium_batch_size = cfg.saga_adaptive_medium_batch_size;
  medium_max_wait = cfg.saga_adaptive_medium_max_wait;
  high_batch_size = cfg.saga_adaptive_high_batch_size;
  high_max_wait = cfg.saga_adaptive_high_max_wait;
}

unfoldable pub build_pull_consumer_config : NatsConfig → String → String → PullConsumerConfig
unfolding build_adaptive_config
build_pull_consumer_config cfg subject durable = record {
  group_id = "";
  stream = cfg.saga_commands_stream;
  subject = subject;
  durable = durable;
  batch_size = cfg.saga_batch_size;
  max_wait = cfg.saga_max_wait;
  workers = cfg.saga_workers;
  queue_size = cfg.saga_queue_size;
  ack_wait = cfg.saga_ack_wait;
  max_deliver = cfg.saga_max_deliver;
  adaptive = build_adaptive_config cfg;
}

-- pullConsumerFetchState
pub record FetchState : Type 0 where
  pub plan : PullPlan
  pub last_adaptive_check : Time

-- The state that runFetcher starts from.
unfoldable pub first_state : PullConsumerConfig → Time → FetchState
first_state cfg now = record {
  plan = record { tier = "base"; batch = cfg.batch_size; wait = cfg.max_wait };
  last_adaptive_check = now;
}

-- The answer of sub.ConsumerInfo, `none` for its error, becomes the next plan.
unfoldable pub adopt_plan : PullConsumerConfig → Option ℤ → FetchState → FetchState
unfolding resolve_pull_plan
adopt_plan cfg none state = state
adopt_plan cfg (some pending) state =
    let next = resolve_pull_plan cfg pending in
    if next.tier == state.plan.tier
      && next.batch ==ℤ state.plan.batch
      && next.wait ==ℤ state.plan.wait
    then state
    else record state { plan = next }

-- maybeUpdateAdaptivePlan at the given time.
unfoldable pub maybe_update_adaptive_plan :
    PullConsumerConfig → Time → Option ℤ → FetchState → FetchState
unfolding adopt_plan
maybe_update_adaptive_plan cfg now info state =
    if not cfg.adaptive.enabled
      || ltb_ℤ (now -ℤ state.last_adaptive_check) cfg.adaptive.check_interval
    then state
    else adopt_plan cfg info (record state { last_adaptive_check = now })
