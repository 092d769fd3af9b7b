-- ===== src/Kafka/Recovery.antt =====
-- recovery_subscriber.go: the recovery commands. Decoding JSON is a parameter, and so are
-- strings.EqualFold, strings.ToLower, the encoding of the created credential and the errors' texts.
pub mod Completion
use ofm_auth_service.Prelude.{String, Bool, not, ◌||◌, [], ◌∷◌, if◌then◌else◌}
use Prim.Native.String.{◌++◌}
use ofm_auth_service.Prelude.Text.{◌==◌, trim_space}
use ofm_auth_service.Config.{KafkaConfig}
use ofm_auth_service.Domain.{message, Credential}
use ofm_auth_service.Action.{
  Env, Reply, value, failure, World, Outcome, ok, err, panicked, Message, advance, text,
}
use ofm_auth_service.Service.{AuthService}
use ofm_auth_service.Broker.{Handled, failed, failed_permanently, crashed, publish_last, timestamp}

-- The fields of events.Envelope that the handler reads, with its payload still to be decoded.
pub record Envelope : Type 0 where
  pub event_id : String
  pub command_id : String
  pub correlation_id : String
  pub idempotency_key : String
  pub test_run_id : String
  pub operation : String
  pub aggregate_type : String
  pub aggregate_id : String
  pub recovery_principal_id : String
  pub payload : String

-- The anonymous struct of handle.
pub record RecoveryPayload : Type 0 where
  pub user_id : String
  pub client_id : String
  pub email : String
  pub username : String
  pub password_hash : String
  pub password : String

-- The library functions that the handler calls.
pub record Codec : Type 0 where
  pub decode_envelope : String → Reply Envelope
  pub decode_payload : String → Reply RecoveryPayload
  pub equal_fold : String → String → Bool
  pub to_lower : String → String
  pub marshal_credential : Credential → String
  pub wrapped : String → String → String  -- fmt.Errorf: the text in front and the detail

abbrev first_of : String → String → String
first_of a b = if a == "" then b else a

-- The user that the command is about.
unfoldable pub recovered_user : Envelope → RecoveryPayload → String
recovered_user cmd p =
    first_of p.user_id (first_of cmd.aggregate_id (first_of p.client_id cmd.recovery_principal_id))

module _ (env : Env) (codec : Codec) (svc : AuthService) (cfg : KafkaConfig) where
  -- The event that is published when the command is done, by the names of its Go fields; its
  -- number and its time are given by their texts.
  abbrev pub completed : Envelope → String → String → World → Message
  completed cmd user result w = record {
    topic = cfg.recovery_completed;
    fields =
        ("EventID", text (cmd.event_id ++ ".completed"))
        ∷ ("CommandID", text cmd.command_id)
        ∷ ("CorrelationID", text cmd.correlation_id)
        ∷ ("CausationID", text cmd.event_id)
        ∷ ("IdempotencyKey", text cmd.idempotency_key)
        ∷ ("TestRunID", text cmd.test_run_id)
        ∷ ("EventType", text "migration.recovery.completed")
        ∷ ("Operation", text cmd.operation)
        ∷ ("SchemaVersion", text "1")
        ∷ ("AggregateType", text "auth")
        ∷ ("AggregateID", text user)
        ∷ ("SourceService", text "auth-service-recovery")
        ∷ ("OccurredAt", text (timestamp env w))
        ∷ ("Payload", text result)
        ∷ [];
  }

  unfoldable pub finish :
      {A : Type 0} → Envelope → String → (A → String) → Outcome A × World → Handled × World
  finish cmd user marshal (ok a, w) =
      publish_last env (completed cmd user (marshal a) w) (advance w)
  finish cmd user marshal (err e, w) = (failed (message e), w)
  finish cmd user marshal (panicked, w) = (crashed, w)

  abbrev pub create_with : Envelope → String → RecoveryPayload → String → World → Handled × World
  create_with cmd user p hash w =
      finish cmd user codec.marshal_credential
        (svc.create_credential user p.email p.username hash w)

  abbrev pub create_hashed :
      Envelope → String → RecoveryPayload → Reply String → World → Handled × World
  create_hashed cmd user p (value hash) w = create_with cmd user p hash w
  create_hashed cmd user p (failure e) w =
      (failed (codec.wrapped "hash auth recovery password" e), w)

  -- The case "post", "create".
  unfoldable pub recover_create : Envelope → String → RecoveryPayload → World → Handled × World
  unfolding finish
  recover_create cmd user p w =
      if not (trim_space p.password_hash == "")
      then create_with cmd user p p.password_hash w
      else if trim_space p.password == ""
      then (failed_permanently "auth recovery payload has neither password_hash nor password", w)
      else create_hashed cmd user p (env.bcrypt_hash w.tick p.password) (advance w)

  -- The `switch` on the operation.
  unfoldable pub recover : Envelope → RecoveryPayload → World → Handled × World
  unfolding recover_create recovered_user
  recover cmd p w =
      let user = recovered_user cmd p in
      let operation = codec.to_lower cmd.operation in
      if trim_space user == ""
      then (
        failed_permanently
            (codec.wrapped "auth recovery command is missing user_id" cmd.command_id),
        w,
      )
      else if operation == "post" || operation == "create"
      then recover_create cmd user p w
      else if operation == "delete"
      then finish cmd user (λ _. "null") (svc.delete_credential user w)
      else (failed (codec.wrapped "unsupported auth recovery operation" cmd.operation), w)

  unfoldable pub recover_decoded : Envelope → Reply RecoveryPayload → World → Handled × World
  unfolding recover
  recover_decoded cmd (failure e) w = (failed (codec.wrapped "decode auth recovery payload" e), w)
  recover_decoded cmd (value p) w = recover cmd p w

  abbrev pub recover_envelope : Reply Envelope → World → Handled × World
  recover_envelope (failure e) w = (failed (codec.wrapped "decode auth recovery command" e), w)
  recover_envelope (value cmd) w =
      if not (codec.equal_fold cmd.aggregate_type "auth")
      then (failed (codec.wrapped "unsupported auth recovery aggregate_type" cmd.aggregate_type), w)
      else recover_decoded cmd (codec.decode_payload cmd.payload) w

  unfoldable pub handle : String → World → Handled × World
  unfolding recover_decoded
  handle raw w = recover_envelope (codec.decode_envelope raw) w
