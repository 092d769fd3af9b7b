-- ===== src/Examples/Events.antt =====
-- The handlers of the commands and the consumer's loop, on concrete messages. The service is
-- a small one that accepts every registration and deletion.
pub mod NatsSaga
pub mod KafkaSaga
pub mod Consumer
pub mod Runtime
pub mod JetStream
use ofm_auth_service.Prelude.{[], ◌∷◌, true, false}
use ofm_auth_service.Prelude.Int.{pos}
use ofm_auth_service.Domain.{
  PendingRegistrationResult, invalid_email, Credential, status_pending_registration,
}
use ofm_auth_service.Config.{KafkaConfig, NatsConfig}
use ofm_auth_service.Action.{pure, throw}
use ofm_auth_service.Service.{AuthService, second}
use ofm_auth_service.Broker.{CreateAuthCommand, DeleteAuthCommand}

abbrev bob : Credential
bob = record {
  user_id = "bob-id";
  email = "bob@example.com";
  username = "bob";
  password_hash = "hash";
  email_verified = false;
  status = status_pending_registration;
  roles = [];
  created_at = pos 0;
  updated_at = pos 0;
}

abbrev registered : PendingRegistrationResult
registered = record {
  user_id = "bob-id";
  email = "bob@example.com";
  verification_code = "123456";
  expires_in = "10 minutes";
}

-- A service that registers and deletes anybody.
abbrev willing : AuthService
willing = record {
  create_credential = λ user email username hash. pure bob;
  create_pending_registration = λ user email username hash. pure registered;
  exists_by_email = λ email. pure true;
  get_email_by_user_id = λ user. pure "bob@example.com";
  verify_registration_email = λ user code. throw invalid_email;
  issue_registration_tokens = λ user. throw invalid_email;
  sign_in = λ identifier password. throw invalid_email;
  refresh = λ token. throw invalid_email;
  sign_out = λ token. throw invalid_email;
  deactivate_registration_auth = λ user. throw invalid_email;
  delete_credential = λ user. pure tt;
}

abbrev pub topics : KafkaConfig
topics = record {
  brokers = "kafka" ∷ [];
  group_id = "auth";
  create_topic = "create";
  delete_topic = "delete";
  create_result_topic = "created";
  delete_result_topic = "deleted";
  mail_topic = "mail";
  dead_letter_topic = "dead";
  recovery_topic = "recovery";
  recovery_group = "auth-recovery";
  recovery_completed = "recovered";
}

abbrev pub subjects : NatsConfig
subjects = record {
  url = "nats";
  user = "";
  password = "";
  auth_events_stream = "AUTH";
  mail_commands_stream = "MAIL";
  auth_created_subject = "auth.created";
  saga_commands_stream = "SAGA";
  saga_create_auth_subject = "create";
  saga_delete_auth_subject = "delete";
  saga_create_auth_result_subject = "created";
  saga_delete_auth_result_subject = "deleted";
  mail_send_subject = "mail";
  saga_create_auth_durable = "auth-create";
  saga_delete_auth_durable = "auth-delete";
  saga_batch_size = pos 10;
  saga_max_wait = pos second;
  saga_workers = pos 4;
  saga_queue_size = pos 100;
  saga_ack_wait = pos second;
  saga_max_deliver = pos 5;
  saga_adaptive_enabled = false;
  saga_adaptive_check_interval = pos 0;
  saga_adaptive_medium_pending = pos 0;
  saga_adaptive_high_pending = pos 0;
  saga_adaptive_low_batch_size = pos 0;
  saga_adaptive_low_max_wait = pos 0;
  saga_adaptive_medium_batch_size = pos 0;
  saga_adaptive_medium_max_wait = pos 0;
  saga_adaptive_high_batch_size = pos 0;
  saga_adaptive_high_max_wait = pos 0;
}

abbrev pub create_bob : CreateAuthCommand
create_bob = record {
  session_id = "s1";
  client_id = "bob-id";
  user_id = "bob-id";
  email = "bob@example.com";
  username = "bob";
  password_hash = "hash";
  saga_id = "";
}

abbrev delete_bob : DeleteAuthCommand
delete_bob = record { user_id = "bob-id"; saga_id = "saga-1" }
