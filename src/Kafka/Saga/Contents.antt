-- ===== src/Kafka/Saga/Contents.antt =====
-- What the messages of kafka/registration_saga_subscriber.go say, member by member.
use ofm_auth_service.Prelude.{String, Option, none, some, List, [], ◌∷◌, ◌≡◌, if◌then◌else◌}
use ofm_auth_service.Prelude.Text.{◌==◌}
use ofm_auth_service.Config.{KafkaConfig}
use ofm_auth_service.Domain.{Err, message, PendingRegistrationResult}
use ofm_auth_service.Action.{Member, text, object, Message}
use ofm_auth_service.Broker.{CreateAuthCommand, DeleteAuthCommand}

-- The first member of a name.
abbrev field : String → List (String × Member) → Option Member
field name [] = none
field name ((key, m) ∷ rest) = if key == name then some m else field name rest

-- A member is this text.
abbrev pub Says : Message → String → String → Type 0
Says msg name s = field name msg.fields ≡ some (text s)

module _ (topics : KafkaConfig) where
  abbrev pub IsOfCreate : CreateAuthCommand → Message → Type 0
  IsOfCreate cmd msg =
      Says msg "session_id" cmd.session_id
      × Says msg "client_id" cmd.client_id
      × Says msg "user_id" cmd.user_id

  abbrev pub IsFailureResult : CreateAuthCommand → Err → Message → Type 0
  IsFailureResult cmd e msg =
      (msg.topic ≡ topics.create_result_topic)
      × IsOfCreate cmd msg
      × Says msg "saga_id" cmd.saga_id
      × Says msg "status" "failed"
      × Says msg "error" (message e)

  abbrev pub IsSuccessResult : CreateAuthCommand → PendingRegistrationResult → Message → Type 0
  IsSuccessResult cmd r msg =
      (msg.topic ≡ topics.create_result_topic)
      × IsOfCreate cmd msg
      × Says msg "saga_id" cmd.saga_id
      × Says msg "status" "success"
      × Says msg "email" r.email
      × Says msg "verification_code" r.verification_code
      × Says msg "expires_in" r.expires_in

  -- The mail goes to the email of the result and holds its code.
  abbrev pub IsMail : CreateAuthCommand → PendingRegistrationResult → Message → Type 0
  IsMail cmd r msg =
      (msg.topic ≡ topics.mail_topic)
      × IsOfCreate cmd msg
      × Says msg "message_type" "email_code"
      × Says msg "to" r.email
      × (field "data" msg.fields
          ≡ some (
              object (
                ("name", r.email)
                ∷ ("code", r.verification_code)
                ∷ ("expires_in", r.expires_in)
                ∷ [])))

  abbrev pub IsDeleteResult : DeleteAuthCommand → String → Message → Type 0
  IsDeleteResult cmd status msg =
      (msg.topic ≡ topics.delete_result_topic)
      × Says msg "user_id" cmd.user_id
      × Says msg "saga_id" cmd.saga_id
      × Says msg "status" status
