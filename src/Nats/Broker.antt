-- ===== src/Nats/Broker.antt =====
-- nats/broker.go, Create of pull_consumer_runtime.go, and the constructor and Subscribe of
-- saga_registration_subscriber.go, over the client library's calls. resilience.Retry is a parameter.
pub mod Consumers
use Prim.Native.String.{◌++◌}
use ofm_auth_service.Prelude.{
  String, Bool, true, false, Option, none, some, not, ◌*◌, if◌then◌else◌,
}
use ofm_auth_service.Prelude.Int.{pos}
use ofm_auth_service.Service.{second}
use ofm_auth_service.Prelude.Text.{◌==◌}
use ofm_auth_service.Domain.{Time}
use ofm_auth_service.Config.{NatsConfig, PullConsumerConfig}
use ofm_auth_service.Nats.PullConsumer.{validate, ConfigError, build_pull_consumer_config}
use ofm_auth_service.Nats.PullConsumer.Runtime.{NatsMsg, Runtime, start}
use ofm_auth_service.Nats.Bootstrap.{connect_options}
use ofm_auth_service.Nats.Client.{
  Client, Call, callers_context, timeout_context, ConsumerConfig, NatsError, empty_nats_url,
  nil_logger, nil_broker, nil_auth_service, nil_failure_reason_resolver, connect_error,
  init_jet_stream_error, flush_error, publish_error, subscribe_error, ensure_consumer_error,
  pull_subscriber_error, config_error, Result, made, refused, try_, try_or, refuse_when,
}

-- The consumer that Create asks for.
unfoldable pub consumer_config : PullConsumerConfig → ConsumerConfig
consumer_config cfg = record {
  durable = cfg.durable;
  filter_subject = cfg.subject;
  ack_policy = "explicit";
  ack_wait = cfg.ack_wait;
  max_deliver = cfg.max_deliver;
}

module _ {S : Type 0} (client : Client S) where
  -- NewBroker
  unfoldable pub new_broker : Bool → NatsConfig → S → Result (Unit {0}) × S
  new_broker has_logger cfg = refuse_when (cfg.url == "") empty_nats_url (
      refuse_when (not has_logger) nil_logger λ s.
        try_ (client.connect cfg.url (connect_options cfg) s) connect_error λ s'. (made tt, s'))

  -- Flush: a context without a deadline is replaced.
  unfoldable pub flush : Bool → Call S
  flush has_deadline =
      client.flush (if has_deadline then callers_context else timeout_context (pos (5 * second)))

  -- Close
  unfoldable pub close : Bool → S → S
  close has_connection s = if has_connection then client.close s else s

  -- Publish
  unfoldable pub publish : Bool → String → String → S → Result (Unit {0}) × S
  unfolding flush
  publish has_deadline subject payload s =
      try_ (client.publish subject payload s) (publish_error subject)
        λ s1. try_ (flush has_deadline s1) flush_error λ s2. (made tt, s2)

  abbrev dead_letter : String → NatsMsg → Option String × S → S
  dead_letter subject msg (none, s) = s
  dead_letter subject msg (some e, s) = (client.publish (subject ++ ".dead-letter") msg.body s).1

  -- The callback of Subscribe, over what Retry makes of the handler.
  unfoldable pub on_message : (Call S → Call S) → (NatsMsg → Call S) → String → NatsMsg → S → S
  on_message retry handler subject msg s = dead_letter subject msg (retry (handler msg) s)

  -- Subscribe
  unfoldable pub subscribe :
      Bool → (Call S → Call S) → String → (NatsMsg → Call S) → S → Result (Unit {0}) × S
  unfolding on_message flush
  subscribe has_deadline retry subject handler s =
      try_
        (client.subscribe subject
          (λ text body. on_message retry handler subject (record { subject = text; body = body }))
          s)
        (subscribe_error subject) λ s1. try_ (flush has_deadline s1) flush_error λ s2. (made tt, s2)

  -- Create; `k` goes on with the runtime.
  unfoldable pub create : {A : Type 0} → PullConsumerConfig → (S → Result A × S) → S → Result A × S
  unfolding consumer_config
  create cfg k s = try_ (client.jet_stream s) init_jet_stream_error λ s1.
      try_or (client.add_consumer cfg.stream (consumer_config cfg) s1)
        (client.update_consumer cfg.stream (consumer_config cfg))
        (ensure_consumer_error cfg.stream cfg.durable)
        λ s2.
          try_ (client.pull_subscribe cfg.subject cfg.durable cfg.stream s2)
            (pull_subscriber_error cfg.subject cfg.durable) k

  -- Behind Validate.
  unfoldable pub run_validated :
      PullConsumerConfig → Time → Option ConfigError → S → Result Runtime × S
  unfolding create
  run_validated cfg now (some e) s = (refused (config_error e), s)
  run_validated cfg now none s = create cfg (λ s'. (made (start cfg now), s')) s

  -- RunPullConsumer: the runtime that it has started.
  unfoldable pub run_pull_consumer : PullConsumerConfig → Time → S → Result Runtime × S
  unfolding run_validated
  run_pull_consumer cfg now s = run_validated cfg now (validate cfg) s

  abbrev and_then : {A B : Type 0} → Result A × S → (A → S → Result B × S) → Result B × S
  and_then (made a, s) k = k a s
  and_then (refused e, s) k = (refused e, s)

  -- Subscribe of the saga's subscriber: the runtimes of the create and the delete commands.
  unfoldable pub subscribe_saga : NatsConfig → Time → Time → S → Result (Runtime × Runtime) × S
  subscribe_saga cfg now later s =
      and_then
        (run_pull_consumer
          (build_pull_consumer_config cfg cfg.saga_create_auth_subject cfg.saga_create_auth_durable)
          now s)
        λ creates s1.
          and_then
            (run_pull_consumer
              (build_pull_consumer_config cfg cfg.saga_delete_auth_subject
                cfg.saga_delete_auth_durable)
              later s1)
            λ deletes s2. (made (creates, deletes), s2)

-- NewRegistrationSagaSubscriber: `none` where it returns no error.
unfoldable pub new_subscriber : Bool → Bool → Bool → Bool → Option NatsError
new_subscriber true true true true = none
new_subscriber true true true false = some nil_logger
new_subscriber true true false has_logger = some nil_failure_reason_resolver
new_subscriber true false has_resolver has_logger = some nil_auth_service
new_subscriber false has_service has_resolver has_logger = some nil_broker
