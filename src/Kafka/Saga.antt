-- ===== src/Kafka/Saga.antt =====
-- registration_saga_subscriber.go. json.Marshal does not fail on maps of texts; decoding a
-- command's JSON is a parameter.
pub mod Contents
pub mod Answers
pub mod Registration
pub mod Sending
pub mod Committed
use ofm_auth_service.Prelude.{[], ◌∷◌}
use ofm_auth_service.Config.{KafkaConfig}
use ofm_auth_service.Domain.{Err, message, PendingRegistrationResult}
use ofm_auth_service.Action.{
  Env, Reply, value, failure, World, Outcome, ok, err, panicked, Message, text, object, advance,
}
use ofm_auth_service.Service.{AuthService}
use ofm_auth_service.Broker.{
  CreateAuthCommand, DeleteAuthCommand, Handled, failed, crashed, publish_last, publish_first,
  timestamp, unmarshal_create_auth_command_error, unmarshal_delete_auth_command_error,
}

module _ (env : Env) (svc : AuthService) (cfg : KafkaConfig) where
  -- The map that handleCreate publishes on failure.
  abbrev pub create_failure : CreateAuthCommand → Err → World → Message
  create_failure cmd e w = record {
    topic = cfg.create_result_topic;
    fields =
        ("session_id", text cmd.session_id)
        ∷ ("client_id", text cmd.client_id)
        ∷ ("user_id", text cmd.user_id)
        ∷ ("saga_id", text cmd.saga_id)
        ∷ ("status", text "failed")
        ∷ ("error", text (message e))
        ∷ ("timestamp", text (timestamp env w))
        ∷ [];
  }

  -- The map that it publishes on success.
  abbrev pub create_success : CreateAuthCommand → PendingRegistrationResult → World → Message
  create_success cmd r w = record {
    topic = cfg.create_result_topic;
    fields =
        ("session_id", text cmd.session_id)
        ∷ ("client_id", text cmd.client_id)
        ∷ ("user_id", text cmd.user_id)
        ∷ ("saga_id", text cmd.saga_id)
        ∷ ("email", text r.email)
        ∷ ("verification_code", text r.verification_code)
        ∷ ("expires_in", text r.expires_in)
        ∷ ("status", text "success")
        ∷ ("timestamp", text (timestamp env w))
        ∷ [];
  }

  abbrev pub mail_command : CreateAuthCommand → PendingRegistrationResult → Message
  mail_command cmd r = record {
    topic = cfg.mail_topic;
    fields =
        ("session_id", text cmd.session_id)
        ∷ ("client_id", text cmd.client_id)
        ∷ ("user_id", text cmd.user_id)
        ∷ ("request_id", text cmd.session_id)
        ∷ ("correlation_id", text cmd.session_id)
        ∷ ("message_type", text "email_code")
        ∷ ("to", text r.email)
        ∷ (
          "data",
          object (
              ("name", r.email)
              ∷ ("code", r.verification_code)
              ∷ ("expires_in", r.expires_in)
              ∷ []),
        )
        ∷ [];
  }

  unfoldable pub after_create :
      CreateAuthCommand → Outcome PendingRegistrationResult × World → Handled × World
  after_create cmd (ok r, w) =
      publish_first env (create_success cmd r w) (publish_last env (mail_command cmd r)) (advance w)
  after_create cmd (err e, w) = publish_last env (create_failure cmd e w) (advance w)
  after_create cmd (panicked, w) = (crashed, w)

  -- handleCreate
  unfoldable pub handle_create : Reply CreateAuthCommand → World → Handled × World
  unfolding after_create
  handle_create (failure e) w = (failed (unmarshal_create_auth_command_error e), w)
  handle_create (value cmd) w =
      after_create cmd
        (svc.create_pending_registration cmd.user_id cmd.email cmd.username cmd.password_hash w)

  abbrev pub delete_failure : DeleteAuthCommand → Err → World → Message
  delete_failure cmd e w = record {
    topic = cfg.delete_result_topic;
    fields =
        ("user_id", text cmd.user_id)
        ∷ ("saga_id", text cmd.saga_id)
        ∷ ("status", text "failed")
        ∷ ("error", text (message e))
        ∷ ("timestamp", text (timestamp env w))
        ∷ [];
  }

  abbrev pub delete_success : DeleteAuthCommand → World → Message
  delete_success cmd w = record {
    topic = cfg.delete_result_topic;
    fields =
        ("user_id", text cmd.user_id)
        ∷ ("saga_id", text cmd.saga_id)
        ∷ ("status", text "success")
        ∷ ("timestamp", text (timestamp env w))
        ∷ [];
  }

  unfoldable pub after_delete : DeleteAuthCommand → Outcome (Unit {0}) × World → Handled × World
  after_delete cmd (ok _, w) = publish_last env (delete_success cmd w) (advance w)
  after_delete cmd (err e, w) = publish_last env (delete_failure cmd e w) (advance w)
  after_delete cmd (panicked, w) = (crashed, w)

  -- handleDelete
  unfoldable pub handle_delete : Reply DeleteAuthCommand → World → Handled × World
  unfolding after_delete
  handle_delete (failure e) w = (failed (unmarshal_delete_auth_command_error e), w)
  handle_delete (value cmd) w = after_delete cmd (svc.delete_credential cmd.user_id w)
