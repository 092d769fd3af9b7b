-- ===== src/Kafka/Saga/Committed.antt =====
-- The create consumer from the fetched message to the published answers: RunPullConsumer of
-- kafka/broker.go with handleCreate of kafka/registration_saga_subscriber.go, over the application
-- service and the PostgreSQL repository.
use ofm_auth_service.Prelude.{ℕ, String, Bool, List, ◌++◌, ◌≡◌, All}
use ofm_auth_service.Config.{JwtConfig, KafkaConfig}
use ofm_auth_service.Action.{Env, Reply, value, World, Message}
use ofm_auth_service.Broker.{CreateAuthCommand, Handled}
use ofm_auth_service.Kafka.Consumer.{
  Delivery, Fate, skipped, retried, committed, dead_lettered, stopped, aborted, handed,
}
use ofm_auth_service.Kafka.Saga.{handle_create}
use ofm_auth_service.Kafka.Saga.Registration.{running}
use ofm_auth_service.Kafka.Saga.Sending.{Sends, IsAnswer}

module _ (env : Env) (cfg : JwtConfig) (topics : KafkaConfig) (max_attempts : ℕ) (with_db : Bool)
    (decode : String → Reply CreateAuthCommand) where
  -- handleCreate on a payload.
  abbrev pub create_handler : String → World → Handled × World
  create_handler payload w = handle_create env (running env cfg topics) topics (decode payload) w

  -- If the message was committed, what was unwrapped of it is a create command, the service was
  -- given it in a state between the two, and its answer was published right behind what had been
  -- published until then.
  abbrev pub IsServed : World → World → Delivery × Fate → Type 0
  IsServed w v (m, committed) =
      (raw : String) × (cmd : CreateAuthCommand) × (s : World) × (msgs : List Message)
      × (back : List Message) × (m.unwrap ≡ value raw)
      × (decode (handed max_attempts with_db topics.create_topic create_handler m raw) ≡ value cmd)
      × Sends w s
      × IsAnswer env cfg topics cmd s msgs
      × (v.sent ≡ (s.sent ++ msgs) ++ back)
  IsServed w v (m, skipped) = Unit
  IsServed w v (m, retried n) = Unit
  IsServed w v (m, dead_lettered r) = Unit
  IsServed w v (m, stopped e) = Unit
  IsServed w v (m, aborted) = Unit

  -- All that a run or a part of one does.
  abbrev IsRunServed : World → List (Delivery × Fate) × World → Type 0
  IsRunServed w (fates, v) = Sends w v × All (IsServed w v) fates
