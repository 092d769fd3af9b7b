-- ===== src/Examples/Events/Consumer.antt =====
-- kafka/recovery_subscriber.go on a recovery command, and the loop of kafka/broker.go on five
-- messages.
use ofm_auth_service.Prelude.{
  String, ◌≡◌, refl, List, [], ◌∷◌, ◌++◌, true, false, some, none, All, exists_row,
}
use ofm_auth_service.Prelude.Int.{pos}
use ofm_auth_service.Prelude.Text.{◌==◌, trim_space, has_prefix, cut_prefix}
use ofm_auth_service.Action.{World, value, pure, publish}
use ofm_auth_service.Broker.{Handled, handled, failed, publish_last}
use ofm_auth_service.Kafka.Recovery.{Envelope, RecoveryPayload, Codec, handle}
use ofm_auth_service.Kafka.Recovery.Completion.{IsRecovered, recovery_command_completed}
use ofm_auth_service.Kafka.Consumer.{Delivery, run_pull_consumer, retry_attempt, handed}
use ofm_auth_service.Kafka.Consumer.Accounting.{IsJustified, run_pull_consumer-IsJustified}
use ofm_auth_service.Examples.{test_env, test_world}
use ofm_auth_service.Examples.Events.{willing, topics}
use ofm_auth_service.Kafka.Readers.{make_broker, open_reader, close}
use ofm_auth_service.Kafka.Subscription.{subscribe, return_of, deletes_wait}

abbrev recover_bob : Envelope
recover_bob = record {
  event_id = "e1";
  command_id = "k1";
  correlation_id = "";
  idempotency_key = "";
  test_run_id = "";
  operation = "create";
  aggregate_type = "auth";
  aggregate_id = "bob-id";
  recovery_principal_id = "";
  payload = "bob";
}

abbrev bob_payload : RecoveryPayload
bob_payload = record {
  user_id = "";
  client_id = "";
  email = "bob@example.com";
  username = "bob";
  password_hash = "";
  password = "secret";
}

abbrev test_codec : Codec
test_codec = record {
  decode_envelope = λ raw. value recover_bob;
  decode_payload = λ raw. value bob_payload;
  equal_fold = λ a b. a == b;
  to_lower = λ s. s;
  marshal_credential = λ c. c.user_id;
  wrapped = λ front detail. front;
}

abbrev after_recovery : World
after_recovery = (handle test_env test_codec willing topics "raw" test_world).1

recovered : handle test_env test_codec willing topics "raw" test_world ≡ (handled, after_recovery)
unfolding handle publish_last publish pure trim_space
recovered = refl

recovery_command_completed_example :
    IsRecovered test_env test_codec willing topics "raw" test_world after_recovery
recovery_command_completed_example =
    recovery_command_completed test_env test_codec willing topics "raw" test_world after_recovery
      recovered

-- A handler that accepts one text only.
abbrev picky : String → World → Handled × World
picky payload w = elim (payload == "good") [ true ↦ (handled, w) | false ↦ (failed "bad", w) ]

abbrev pub good : Delivery
good = record {
  key = [];
  headers = [];
  value = "good";
  partition = pos 0;
  offset = pos 7;
  claim = value true;
  unwrap = value "good";
  enqueue = none;
  error_class = "*errors.errorString";
  now = pos 0;
  marshal_dlq = λ r. value r.error;
  dead_letter = λ msg. none;
  commit = none;
}

abbrev bad : Delivery
bad = record good { value = "bad"; unwrap = value "bad" }

abbrev last_attempt : Delivery
last_attempt = record bad {
  headers = record { key = "x-ofm-retry-attempt"; value = "3"; number = some (pos 3) } ∷ [];
}

abbrev messages : List Delivery
messages = good ∷ bad ∷ record good { claim = value false } ∷ last_attempt ∷ good ∷ []

run_pull_consumer-IsJustified_example :
    All
      (IsJustified 3 true topics.create_topic picky)
      (run_pull_consumer 3 true topics.create_topic picky messages test_world).0
run_pull_consumer-IsJustified_example =
    run_pull_consumer-IsJustified 3 true topics.create_topic picky messages test_world

-- One command is retried, and the delete command that waits is not fetched.
deletes_wait_example :
    (subscribe 3 true topics.create_topic topics.delete_topic picky picky
      (good ∷ bad ∷ [])
      "closed"
      (good ∷ [])
      "closed"
      test_world).0.deletes
    ≡ []
unfolding subscribe run_pull_consumer retry_attempt return_of exists_row handed has_prefix
    cut_prefix
deletes_wait_example =
    deletes_wait 3 true topics.create_topic topics.delete_topic picky picky (good ∷ bad ∷ [])
      (good ∷ []) "closed" "closed" test_world refl

-- The readers of two consumers, with the groups that the broker gives them, are closed.
readers_closed :
    close
      (λ r closed. closed ++ r.group_id ∷ [])
      (open_reader "" topics.delete_topic
        (open_reader " own " topics.create_topic (make_broker topics true)))
      []
    ≡ "own" ∷ "auth-delete" ∷ []
unfolding close open_reader make_broker trim_space
readers_closed = refl
