-- ===== src/Kafka/Readers.antt =====
-- kafka/broker.go: what newBroker makes of the configuration, the readers that RunPullConsumer opens
-- and Close. Closing a reader is a parameter.
use ofm_auth_service.Prelude.{String, Bool, List, [], ◌∷◌, ◌++◌}
use ofm_auth_service.Config.{KafkaConfig}
use ofm_auth_service.Kafka.Subscription.{consumer_group}

-- The fields of kafka.ReaderConfig that differ from reader to reader.
pub record ReaderConfig : Type 0 where
  pub brokers : List String
  pub topic : String
  pub group_id : String

-- broker
pub record KafkaBroker : Type 0 where
  pub brokers : List String
  pub group : String
  pub dead_letter : String
  pub readers : List ReaderConfig
  pub has_db : Bool

-- newBroker, behind its check.
unfoldable pub make_broker : KafkaConfig → Bool → KafkaBroker
make_broker cfg has_db = record {
  brokers = cfg.brokers;
  group = cfg.group_id;
  dead_letter = cfg.dead_letter_topic;
  readers = [];
  has_db = has_db;
}

-- The reader of a RunPullConsumer.
unfoldable pub reader_of : String → String → KafkaBroker → ReaderConfig
unfolding consumer_group
reader_of configured subject b = record {
  brokers = b.brokers;
  topic = subject;
  group_id = consumer_group configured b.group subject;
}

unfoldable pub open_reader : String → String → KafkaBroker → KafkaBroker
unfolding reader_of
open_reader configured subject b = record b {
  readers = b.readers ++ reader_of configured subject b ∷ [];
}

-- The readers are closed in the order in which they were opened.
abbrev close_all : {S : Type 0} → (ReaderConfig → S → S) → List ReaderConfig → S → S
close_all close_reader [] s = s
close_all close_reader (r ∷ rs) s = close_all close_reader rs (close_reader r s)

-- Close
unfoldable pub close : {S : Type 0} → (ReaderConfig → S → S) → KafkaBroker → S → S
close close_reader b s = close_all close_reader b.readers s
