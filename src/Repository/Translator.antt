-- ===== src/Repository/Translator.antt =====
-- error_translator.go: driver errors become the errors of the domain.
use ofm_auth_service.Prelude.{String, if◌then◌else◌}
use ofm_auth_service.Prelude.Text.{◌==◌, contains}
use ofm_auth_service.Domain.{
  Err, invalid_user_id, invalid_verification_code, email_already_taken,
  auth_credentials_already_exist, auth_not_found, invalid_refresh_token,
  failed_to_create_credential, failed_to_create_verification_code, failed_to_verify_email,
  failed_to_create_refresh_token, failed_to_rotate_refresh_token, failed_to_find_credential,
  failed_to_deactivate_credential, failed_to_delete_credential,
}
use ofm_auth_service.Db.{
  DbError, no_rows, pg_error, unique_violation, invalid_text_representation, foreign_key_violation,
}

abbrev pub auth_credentials_primary_key_constraint : String
auth_credentials_primary_key_constraint = "auth_credentials_pkey"

abbrev pub auth_credentials_email_constraint : String
auth_credentials_email_constraint = "auth_credentials_email_key"

unfoldable pub translate_unique_violation : String → String → Err
translate_unique_violation constraint text =
    if constraint == auth_credentials_primary_key_constraint
    then auth_credentials_already_exist
    else if constraint == auth_credentials_email_constraint
    then email_already_taken
    else if contains text auth_credentials_primary_key_constraint
    then auth_credentials_already_exist
    else if contains text auth_credentials_email_constraint
    then email_already_taken
    else failed_to_create_credential

unfoldable pub translate_create_credential_error : DbError → Err
unfolding translate_unique_violation
translate_create_credential_error (pg_error unique_violation constraint text) =
    translate_unique_violation constraint text
translate_create_credential_error (pg_error invalid_text_representation _ _) = invalid_user_id
translate_create_credential_error _ = failed_to_create_credential

unfoldable pub translate_create_verification_code_error : DbError → Err
translate_create_verification_code_error (pg_error invalid_text_representation _ _) =
    invalid_user_id
translate_create_verification_code_error (pg_error foreign_key_violation _ _) = auth_not_found
translate_create_verification_code_error _ = failed_to_create_verification_code

unfoldable pub translate_verify_email_error : DbError → Err
translate_verify_email_error no_rows = invalid_verification_code
translate_verify_email_error (pg_error invalid_text_representation _ _) = invalid_user_id
translate_verify_email_error _ = failed_to_verify_email

unfoldable pub translate_create_refresh_token_error : DbError → Err
translate_create_refresh_token_error (pg_error invalid_text_representation _ _) = invalid_user_id
translate_create_refresh_token_error (pg_error foreign_key_violation _ _) = auth_not_found
translate_create_refresh_token_error _ = failed_to_create_refresh_token

unfoldable pub translate_rotate_refresh_token_error : DbError → Err
translate_rotate_refresh_token_error (pg_error invalid_text_representation _ _) =
    invalid_refresh_token
translate_rotate_refresh_token_error (pg_error foreign_key_violation _ _) = auth_not_found
translate_rotate_refresh_token_error _ = failed_to_rotate_refresh_token

unfoldable pub translate_find_credential_error : DbError → Err
translate_find_credential_error no_rows = auth_not_found
translate_find_credential_error _ = failed_to_find_credential

unfoldable pub translate_deactivate_credential_error : DbError → Err
translate_deactivate_credential_error (pg_error invalid_text_representation _ _) = invalid_user_id
translate_deactivate_credential_error _ = failed_to_deactivate_credential

unfoldable pub translate_delete_credential_error : DbError → Err
translate_delete_credential_error _ = failed_to_delete_credential
