-- ===== src/Nats/Saga.antt =====
-- saga_registration_handler.go: the handlers of the registration saga's commands, over the
-- service. Decoding a command's JSON is a parameter.
pub mod Answers
use ofm_auth_service.Config.{NatsConfig}
use ofm_auth_service.Domain.{Err, PendingRegistrationResult}
use ofm_auth_service.Action.{
  Env, Reply, value, failure, World, Outcome, ok, err, panicked, Message, advance,
}
use ofm_auth_service.Service.{AuthService}
use ofm_auth_service.Broker.{
  CreateAuthCommand, DeleteAuthCommand, Handled, failed, crashed, publish_last, publish_first,
  timestamp, unmarshal_create_auth_command_error, unmarshal_delete_auth_command_error,
}
use ofm_auth_service.Nats.Mapper.{
  to_create_failure_result_payload, to_create_success_result_payload,
  to_delete_failure_result_payload, to_delete_success_result_payload, to_mail_send_command_payload,
}
use ofm_auth_service.Nats.Reasons.{create_auth_failure_reason, delete_auth_failure_reason}

module _ (env : Env) (svc : AuthService) (cfg : NatsConfig) where
  abbrev pub create_failure : CreateAuthCommand → Err → World → Message
  create_failure cmd e w = record {
    topic = cfg.saga_create_auth_result_subject;
    fields = to_create_failure_result_payload cmd (create_auth_failure_reason e) (timestamp env w);
  }

  abbrev pub create_success : CreateAuthCommand → PendingRegistrationResult → World → Message
  create_success cmd r w = record {
    topic = cfg.saga_create_auth_result_subject;
    fields =
        to_create_success_result_payload cmd r.email r.verification_code r.expires_in
          (timestamp env w);
  }

  abbrev pub mail_command : CreateAuthCommand → PendingRegistrationResult → Message
  mail_command cmd r = record {
    topic = cfg.mail_send_subject;
    fields = to_mail_send_command_payload cmd r.email r.verification_code r.expires_in;
  }

  unfoldable pub publish_create_failure_result : CreateAuthCommand → Err → World → Handled × World
  publish_create_failure_result cmd e w = publish_last env (create_failure cmd e w) (advance w)

  unfoldable pub publish_create_success_result :
      CreateAuthCommand → PendingRegistrationResult → World → Handled × World
  publish_create_success_result cmd r w =
      publish_first env (create_success cmd r w) (publish_last env (mail_command cmd r)) (advance w)

  unfoldable pub after_create :
      CreateAuthCommand → Outcome PendingRegistrationResult × World → Handled × World
  unfolding publish_create_failure_result publish_create_success_result
  after_create cmd (ok r, w) = publish_create_success_result cmd r w
  after_create cmd (err e, w) = publish_create_failure_result cmd e w
  after_create cmd (panicked, w) = (crashed, w)

  unfoldable pub handle_create_auth_command : Reply CreateAuthCommand → World → Handled × World
  unfolding after_create
  handle_create_auth_command (failure e) w = (failed (unmarshal_create_auth_command_error e), w)
  handle_create_auth_command (value cmd) w =
      after_create cmd
        (svc.create_pending_registration cmd.user_id cmd.email cmd.username cmd.password_hash w)

  abbrev pub delete_failure : DeleteAuthCommand → Err → World → Message
  delete_failure cmd e w = record {
    topic = cfg.saga_delete_auth_result_subject;
    fields = to_delete_failure_result_payload cmd (delete_auth_failure_reason e) (timestamp env w);
  }

  abbrev pub delete_success : DeleteAuthCommand → World → Message
  delete_success cmd w = record {
    topic = cfg.saga_delete_auth_result_subject;
    fields = to_delete_success_result_payload cmd (timestamp env w);
  }

  unfoldable pub after_delete : DeleteAuthCommand → Outcome (Unit {0}) × World → Handled × World
  after_delete cmd (ok _, w) = publish_last env (delete_success cmd w) (advance w)
  after_delete cmd (err e, w) = publish_last env (delete_failure cmd e w) (advance w)
  after_delete cmd (panicked, w) = (crashed, w)

  unfoldable pub handle_delete_auth_command : Reply DeleteAuthCommand → World → Handled × World
  unfolding after_delete
  handle_delete_auth_command (failure e) w = (failed (unmarshal_delete_auth_command_error e), w)
  handle_delete_auth_command (value cmd) w = after_delete cmd (svc.delete_credential cmd.user_id w)
