-- ===== src/Examples/Settings.antt =====
-- The consumers' settings and the restart loops, on concrete values.
use ofm_auth_service.Prelude.{◌≡◌, ◌≤◌, ◌*◌, refl, [], ◌∷◌, true, none, ◌↔◌}
use ofm_auth_service.Prelude.Int.{pos}
use ofm_auth_service.Config.{PullConsumerConfig}
use ofm_auth_service.Config.Defaults.{default_nats}
use ofm_auth_service.Service.{second}
use ofm_auth_service.Nats.PullConsumer.{validate, build_pull_consumer_config}
use ofm_auth_service.Nats.PullConsumer.Plan.{IsSound, validate-IsSound}
use ofm_auth_service.Lifecycle.{waits, next_recovery_backoff, recovery_backoff_bounded}

abbrev pub adaptive_cfg : PullConsumerConfig
adaptive_cfg = record {
  group_id = "";
  stream = "SAGA";
  subject = "saga.auth.create";
  durable = "auth-create";
  batch_size = pos 10;
  max_wait = pos second;
  workers = pos 4;
  queue_size = pos 100;
  ack_wait = pos (30 * second);
  max_deliver = pos 5;
  adaptive = record {
    enabled = true;
    check_interval = pos second;
    medium_pending = pos 50;
    high_pending = pos 500;
    low_batch_size = pos 5;
    low_max_wait = pos (2 * second);
    medium_batch_size = pos 20;
    medium_max_wait = pos second;
    high_batch_size = pos 100;
    high_max_wait = pos 1;
  };
}

accepted_settings : validate adaptive_cfg ≡ none
unfolding validate
accepted_settings = refl

validate-IsSound_example : (validate adaptive_cfg ≡ none) ↔ IsSound adaptive_cfg
validate-IsSound_example = validate-IsSound adaptive_cfg

recovery_backoff_bounded_example :
    (second ≤ waits next_recovery_backoff (true ∷ true ∷ true ∷ true ∷ true ∷ []) second)
    × (waits next_recovery_backoff (true ∷ true ∷ true ∷ true ∷ true ∷ []) second ≤ 32 * second)
recovery_backoff_bounded_example = recovery_backoff_bounded (true ∷ true ∷ true ∷ true ∷ true ∷ [])

-- After five failures the recovery's loop waits longer than the saga's.
recovery_reaches_32 :
    waits next_recovery_backoff (true ∷ true ∷ true ∷ true ∷ true ∷ []) second ≡ 32 * second
unfolding waits next_recovery_backoff
recovery_reaches_32 = refl

-- The settings of an environment that names no other give two valid consumers.
default_settings :
    (validate (
        build_pull_consumer_config default_nats default_nats.saga_create_auth_subject
          default_nats.saga_create_auth_durable)
      ≡ none)
    × (validate (
          build_pull_consumer_config default_nats default_nats.saga_delete_auth_subject
            default_nats.saga_delete_auth_durable)
        ≡ none)
unfolding validate build_pull_consumer_config
default_settings = (refl, refl)
