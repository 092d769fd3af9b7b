-- ===== src/Nats/Mapper.antt =====
-- mapper.go: the payloads of the saga's results and of the mail command. A field that is tagged
-- `omitempty` (saga_registration_subscriber.go) is left out where its text is empty. json.Marshal
-- does not fail on texts.
use ofm_auth_service.Prelude.{String, List, [], ◌∷◌, ◌++◌, if◌then◌else◌}
use ofm_auth_service.Prelude.Text.{◌==◌}
use ofm_auth_service.Action.{Member, text, object}
use ofm_auth_service.Broker.{CreateAuthCommand, DeleteAuthCommand}

abbrev omitempty : String → String → List (String × Member)
omitempty name s = if s == "" then [] else (name, text s) ∷ []

-- createAuthResult
pub record CreateAuthResult : Type 0 where
  pub session_id : String
  pub client_id : String
  pub user_id : String
  pub saga_id : String
  pub email : String
  pub verification_code : String
  pub expires_in : String
  pub status : String
  pub error : String
  pub timestamp : String

unfoldable pub marshal_create_auth_result : CreateAuthResult → List (String × Member)
marshal_create_auth_result r =
    ("session_id", text r.session_id)
      ∷ ("client_id", text r.client_id)
      ∷ ("user_id", text r.user_id)
      ∷ omitempty "saga_id" r.saga_id
    ++ omitempty "email" r.email
    ++ omitempty "verification_code" r.verification_code
    ++ omitempty "expires_in" r.expires_in
    ++ ("status", text r.status) ∷ omitempty "error" r.error
    ++ ("timestamp", text r.timestamp) ∷ []

-- deleteAuthResult
pub record DeleteAuthResult : Type 0 where
  pub user_id : String
  pub saga_id : String
  pub status : String
  pub error : String
  pub timestamp : String

unfoldable pub marshal_delete_auth_result : DeleteAuthResult → List (String × Member)
marshal_delete_auth_result r =
    ("user_id", text r.user_id) ∷ omitempty "saga_id" r.saga_id
    ++ ("status", text r.status) ∷ omitempty "error" r.error
    ++ ("timestamp", text r.timestamp) ∷ []

unfoldable pub to_create_failure_result_payload :
    CreateAuthCommand → String → String → List (String × Member)
unfolding marshal_create_auth_result
to_create_failure_result_payload cmd reason now = marshal_create_auth_result (record {
  session_id = cmd.session_id;
  client_id = cmd.client_id;
  user_id = cmd.user_id;
  saga_id = cmd.saga_id;
  email = "";
  verification_code = "";
  expires_in = "";
  status = "failed";
  error = reason;
  timestamp = now;
})

unfoldable pub to_create_success_result_payload :
    CreateAuthCommand → String → String → String → String → List (String × Member)
unfolding marshal_create_auth_result
to_create_success_result_payload cmd email verification_code expires_in now =
    marshal_create_auth_result (record {
      session_id = cmd.session_id;
      client_id = cmd.client_id;
      user_id = cmd.user_id;
      saga_id = cmd.saga_id;
      email = email;
      verification_code = verification_code;
      expires_in = expires_in;
      status = "success";
      error = "";
      timestamp = now;
    })

unfoldable pub to_delete_failure_result_payload :
    DeleteAuthCommand → String → String → List (String × Member)
unfolding marshal_delete_auth_result
to_delete_failure_result_payload cmd reason now = marshal_delete_auth_result (record {
  user_id = cmd.user_id;
  saga_id = cmd.saga_id;
  status = "failed";
  error = reason;
  timestamp = now;
})

unfoldable pub to_delete_success_result_payload :
    DeleteAuthCommand → String → List (String × Member)
unfolding marshal_delete_auth_result
to_delete_success_result_payload cmd now = marshal_delete_auth_result (record {
  user_id = cmd.user_id;
  saga_id = cmd.saga_id;
  status = "success";
  error = "";
  timestamp = now;
})

-- ToMailSendCommandPayload; the maps of kafka/registration_saga_subscriber.go are the same.
unfoldable pub to_mail_send_command_payload :
    CreateAuthCommand → String → String → String → List (String × Member)
to_mail_send_command_payload cmd email verification_code expires_in =
    ("session_id", text cmd.session_id)
    ∷ ("client_id", text cmd.client_id)
    ∷ ("user_id", text cmd.user_id)
    ∷ ("request_id", text cmd.session_id)
    ∷ ("correlation_id", text cmd.session_id)
    ∷ ("message_type", text "email_code")
    ∷ ("to", text email)
    ∷ (
      "data",
      object (("name", email) ∷ ("code", verification_code) ∷ ("expires_in", expires_in) ∷ []),
    )
    ∷ []
