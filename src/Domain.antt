-- ===== src/Domain.antt =====
-- internal/domain: the auth model (auth.go) and its errors (error.go). Go's error values are the
-- constructors of `Err`; `signer_error` stands for any error that the JWT signer returns.
use ofm_auth_service.Prelude.{String, Bool, List}
use ofm_auth_service.Prelude.Int.{ℤ}

-- time.Time, in nanoseconds since the Unix epoch, and time.Duration, in nanoseconds.
abbrev pub Time : Type 0
Time = ℤ

abbrev pub Duration : Type 0
Duration = ℤ

abbrev pub role_admin : String
role_admin = "admin"

abbrev pub status_pending_registration : String
status_pending_registration = "pending_registration"

abbrev pub status_email_verified : String
status_email_verified = "email_verified"

abbrev pub status_registration_failed : String
status_registration_failed = "registration_failed"

pub record Credential : Type 0 where
  pub user_id : String
  pub email : String
  pub username : String
  pub password_hash : String
  pub email_verified : Bool
  pub status : String
  pub roles : List String
  pub created_at : Time
  pub updated_at : Time

pub record CreateCredentialParams : Type 0 where
  pub user_id : String
  pub email : String
  pub username : String
  pub password_hash : String

pub record CreateVerificationCodeParams : Type 0 where
  pub id : String
  pub user_id : String
  pub token_hash : String
  pub expires_at : Time

pub record PendingRegistrationResult : Type 0 where
  pub user_id : String
  pub email : String
  pub verification_code : String
  pub expires_in : String

pub record RegistrationEmailVerificationResult : Type 0 where
  pub user_id : String
  pub email : String
  pub status : String

pub record TokenPair : Type 0 where
  pub user_id : String
  pub access_token : String
  pub refresh_token : String
  pub token_type : String
  pub expires_in : ℤ

pub record CreateRefreshTokenParams : Type 0 where
  pub id : String
  pub user_id : String
  pub token_hash : String
  pub expires_at : Time

pub record RotateRefreshTokenParams : Type 0 where
  pub current_token_hash : String
  pub new_token_id : String
  pub new_token_hash : String
  pub new_expires_at : Time
  pub now : Time

pub record RevokeRefreshTokenParams : Type 0 where
  pub current_token_hash : String
  pub now : Time

pub data Err : Type 0 where
  invalid_user_id invalid_email invalid_username invalid_password_hash : Err
  invalid_verification_code expired_verification_code : Err
  email_already_taken auth_credentials_already_exist auth_not_found : Err
  email_not_verified invalid_credentials : Err
  invalid_refresh_token refresh_token_expired refresh_token_revoked : Err
  failed_to_create_credential failed_to_create_verification_code failed_to_verify_email : Err
  failed_to_create_refresh_token failed_to_rotate_refresh_token : Err
  failed_to_revoke_refresh_token failed_to_find_credential : Err
  failed_to_deactivate_credential failed_to_delete_credential : Err
  signer_error : String → Err

-- err.Error()
unfoldable pub message : Err → String
message invalid_user_id = "invalid user id"
message invalid_email = "invalid email"
message invalid_username = "invalid username"
message invalid_password_hash = "invalid password hash"
message invalid_verification_code = "invalid verification code"
message expired_verification_code = "verification code expired"
message email_already_taken = "email is already taken"
message auth_credentials_already_exist = "auth credentials already exist"
message auth_not_found = "auth credentials not found"
message email_not_verified = "email is not verified"
message invalid_credentials = "invalid credentials"
message invalid_refresh_token = "invalid refresh token"
message refresh_token_expired = "refresh token expired"
message refresh_token_revoked = "refresh token revoked"
message failed_to_create_credential = "failed to create auth credential"
message failed_to_create_verification_code = "failed to create verification code"
message failed_to_verify_email = "failed to verify email"
message failed_to_create_refresh_token = "failed to create refresh token"
message failed_to_rotate_refresh_token = "failed to rotate refresh token"
message failed_to_revoke_refresh_token = "failed to revoke refresh token"
message failed_to_find_credential = "failed to find auth credential"
message failed_to_deactivate_credential = "failed to deactivate auth credential"
message failed_to_delete_credential = "failed to delete auth credential"
message (signer_error text) = text
