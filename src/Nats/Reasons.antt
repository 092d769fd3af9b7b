-- ===== src/Nats/Reasons.antt =====
-- error_reason.go: the reasons that a saga sees. The service's errors are compared by identity.
use ofm_auth_service.Prelude.{String}
use ofm_auth_service.Domain.{
  Err, invalid_user_id, invalid_email, invalid_password_hash, failed_to_create_verification_code,
  email_already_taken, auth_credentials_already_exist, auth_not_found,
}

-- CreateAuthFailureReason
unfoldable pub create_auth_failure_reason : Err → String
create_auth_failure_reason invalid_user_id = "invalid user_id"
create_auth_failure_reason invalid_email = "invalid email"
create_auth_failure_reason invalid_password_hash = "invalid password_hash"
create_auth_failure_reason failed_to_create_verification_code = "failed to create verification code"
create_auth_failure_reason email_already_taken = "email is already taken"
create_auth_failure_reason auth_credentials_already_exist = "auth credentials already exist"
create_auth_failure_reason _ = "failed to create auth credential"

-- DeleteAuthFailureReason
unfoldable pub delete_auth_failure_reason : Err → String
delete_auth_failure_reason invalid_user_id = "invalid user_id"
delete_auth_failure_reason auth_not_found = "auth credentials not found"
delete_auth_failure_reason _ = "failed to delete auth credential"
