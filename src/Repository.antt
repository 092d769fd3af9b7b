-- ===== src/Repository.antt =====
-- internal/infra/write/postgres/repository.go over PostgreSQL, and the interface of
-- internal/domain/auth.go that it implements. The metrics that each method records are left out.
pub mod Translator
pub mod Keeps
pub mod Validity
pub mod Rotation
pub mod Sessions
pub mod Progress
pub mod Transactions
unfoldable pub use Translator.{
  translate_create_credential_error, translate_create_verification_code_error,
  translate_verify_email_error, translate_create_refresh_token_error,
  translate_rotate_refresh_token_error, translate_find_credential_error,
  translate_deactivate_credential_error, translate_delete_credential_error,
}
use ofm_auth_service.Prelude.{String, Bool, List, not, is_none, ◌==ℕ◌}
use ofm_auth_service.Prelude.Int.{ltb_ℤ}
use ofm_auth_service.Domain.{
  Time, Credential, CreateCredentialParams, CreateVerificationCodeParams, CreateRefreshTokenParams,
  RotateRefreshTokenParams, RevokeRefreshTokenParams, Err, invalid_refresh_token,
  refresh_token_revoked, refresh_token_expired, auth_not_found, failed_to_find_credential,
}
use ofm_auth_service.Db.{CredentialRow, RefreshTokenRow, DbError, no_rows}
use ofm_auth_service.Db.Statements.{
  create_credential_query, create_verification_code_query, verify_registration_email_query,
  create_refresh_token_query, refresh_token_for_rotation_query, revoke_refresh_token_query,
  get_credential_by_user_id_query, get_credential_by_identifier_query,
  exists_credential_by_email_query, list_roles_by_user_id_query, deactivate_registration_auth_query,
  delete_credential_by_user_id_query,
}
use ofm_auth_service.Action.{Env, Action, pure, ◌>>=◌, ◌>>◌, fail_if, execute, request, transaction}

-- domain.AuthRepository
pub record AuthRepository : Type 0 where
  pub create : CreateCredentialParams → Action Credential
  pub create_verification_code : CreateVerificationCodeParams → Action (Unit {0})
  pub verify_registration_email : String → String → Time → Action Credential
  pub create_refresh_token : CreateRefreshTokenParams → Action (Unit {0})
  pub rotate_refresh_token : RotateRefreshTokenParams → Action Credential
  pub revoke_refresh_token : RevokeRefreshTokenParams → Action Credential
  pub get_by_user_id : String → Action Credential
  pub get_by_identifier : String → Action Credential
  pub list_roles_by_user_id : String → Action (List String)
  pub exists_by_email : String → Action Bool
  pub deactivate_registration_auth : String → Action (Unit {0})
  pub delete_by_user_id : String → Action (Unit {0})

-- mapper.MapCredentialRowToDomain
unfoldable pub map_credential_row_to_domain : CredentialRow → Credential
map_credential_row_to_domain row = record {
  user_id = row.user_id;
  email = row.email;
  username = row.username;
  password_hash = row.password_hash;
  email_verified = row.email_verified;
  status = row.status;
  roles = row.roles;
  created_at = row.created_at;
  updated_at = row.updated_at;
}

-- The error of the lookup in loadRefreshTokenForMutation.
unfoldable pub translate_load_error : DbError → Err
unfolding translate_rotate_refresh_token_error
translate_load_error no_rows = invalid_refresh_token
translate_load_error e = translate_rotate_refresh_token_error e

pub record RefreshTokenMutationRow : Type 0 where
  pub refresh_token_id : String
  pub credential : Credential

module _ (env : Env) where
  unfoldable pub list_roles_by_user_id : String → Action (List String)
  list_roles_by_user_id user_id =
      execute env translate_find_credential_error (list_roles_by_user_id_query env.pg user_id)

  unfoldable pub attach_roles : Credential → Action Credential
  unfolding list_roles_by_user_id
  attach_roles credential = do
    roles ← list_roles_by_user_id credential.user_id
    pure (record credential { roles = roles })

  unfoldable pub create : CreateCredentialParams → Action Credential
  create params = do
    row ← execute env translate_create_credential_error (create_credential_query env.pg params)
    attach_roles (map_credential_row_to_domain row)

  unfoldable pub create_verification_code : CreateVerificationCodeParams → Action (Unit {0})
  create_verification_code params =
      execute env translate_create_verification_code_error
        (create_verification_code_query env.pg params)

  unfoldable pub verify_registration_email : String → String → Time → Action Credential
  verify_registration_email user_id token_hash now = do
    row ←
        execute env translate_verify_email_error
          (verify_registration_email_query env.pg user_id token_hash now)
    attach_roles (map_credential_row_to_domain row)

  unfoldable pub create_refresh_token : CreateRefreshTokenParams → Action (Unit {0})
  create_refresh_token params =
      execute env translate_create_refresh_token_error (create_refresh_token_query env.pg params)

  -- The checks of loadRefreshTokenForMutation on the row that was found.
  unfoldable pub check_mutation_row :
      Time → RefreshTokenRow × CredentialRow → Action RefreshTokenMutationRow
  check_mutation_row now (token, owner) = do
    fail_if (not (is_none token.revoked_at)) refresh_token_revoked
    fail_if (not (ltb_ℤ now token.expires_at)) refresh_token_expired
    pure (record {
      refresh_token_id = token.refresh_token_id;
      credential = map_credential_row_to_domain owner;
    })

  unfoldable pub load_refresh_token_for_mutation : String → Time → Action RefreshTokenMutationRow
  unfolding check_mutation_row
  load_refresh_token_for_mutation current_token_hash now = do
    row ← execute env translate_load_error (refresh_token_for_rotation_query current_token_hash)
    check_mutation_row now row

  -- The statements of RotateRefreshToken behind loadRefreshTokenForMutation.
  unfoldable pub rotate_writes :
      RotateRefreshTokenParams → RefreshTokenMutationRow → Action Credential
  rotate_writes params row = do
    execute env translate_rotate_refresh_token_error
        (revoke_refresh_token_query env.pg row.refresh_token_id params.now)
    execute env translate_rotate_refresh_token_error (
        create_refresh_token_query env.pg (record {
          id = params.new_token_id;
          user_id = row.credential.user_id;
          token_hash = params.new_token_hash;
          expires_at = params.new_expires_at;
        }))
    pure row.credential

  -- The statements between BeginTxx and Commit in RotateRefreshToken.
  unfoldable pub rotate_body : RotateRefreshTokenParams → Action Credential
  unfolding load_refresh_token_for_mutation rotate_writes
  rotate_body params = do
    row ← load_refresh_token_for_mutation params.current_token_hash params.now
    rotate_writes params row

  unfoldable pub rotate_refresh_token : RotateRefreshTokenParams → Action Credential
  unfolding rotate_body
  rotate_refresh_token params = do
    credential ← transaction env translate_rotate_refresh_token_error (rotate_body params)
    attach_roles credential

  -- The statement of RevokeRefreshToken behind loadRefreshTokenForMutation.
  unfoldable pub revoke_writes :
      RevokeRefreshTokenParams → RefreshTokenMutationRow → Action Credential
  revoke_writes params row = do
    execute env translate_rotate_refresh_token_error
        (revoke_refresh_token_query env.pg row.refresh_token_id params.now)
    pure row.credential

  -- The statements between BeginTxx and Commit in RevokeRefreshToken.
  unfoldable pub revoke_body : RevokeRefreshTokenParams → Action Credential
  unfolding load_refresh_token_for_mutation revoke_writes
  revoke_body params = do
    row ← load_refresh_token_for_mutation params.current_token_hash params.now
    revoke_writes params row

  unfoldable pub revoke_refresh_token : RevokeRefreshTokenParams → Action Credential
  unfolding revoke_body
  revoke_refresh_token params = do
    credential ← transaction env translate_rotate_refresh_token_error (revoke_body params)
    attach_roles credential

  unfoldable pub get_by_user_id : String → Action Credential
  get_by_user_id user_id = do
    row ←
        execute env translate_find_credential_error (get_credential_by_user_id_query env.pg user_id)
    attach_roles (map_credential_row_to_domain row)

  unfoldable pub get_by_identifier : String → Action Credential
  get_by_identifier identifier = do
    row ←
        execute env translate_find_credential_error (get_credential_by_identifier_query identifier)
    pure (map_credential_row_to_domain row)

  unfoldable pub exists_by_email : String → Action Bool
  exists_by_email email =
      execute env (λ _. failed_to_find_credential) (exists_credential_by_email_query email)

  unfoldable pub deactivate_registration_auth : String → Action (Unit {0})
  deactivate_registration_auth user_id = do
    result ←
        execute env translate_deactivate_credential_error
          (deactivate_registration_auth_query env.pg user_id)
    rows_affected ← request env translate_deactivate_credential_error (pure result)
    fail_if (rows_affected ==ℕ 0) auth_not_found

  unfoldable pub delete_by_user_id : String → Action (Unit {0})
  delete_by_user_id user_id = do
    result ←
        execute env translate_delete_credential_error
          (delete_credential_by_user_id_query env.pg user_id)
    rows_affected ← request env translate_delete_credential_error (pure result)
    fail_if (rows_affected ==ℕ 0) auth_not_found

  -- The repository that New builds from a database and the PostgreSQL translator.
  abbrev pub repo : AuthRepository
  repo = record {
    create = create;
    create_verification_code = create_verification_code;
    verify_registration_email = verify_registration_email;
    create_refresh_token = create_refresh_token;
    rotate_refresh_token = rotate_refresh_token;
    revoke_refresh_token = revoke_refresh_token;
    get_by_user_id = get_by_user_id;
    get_by_identifier = get_by_identifier;
    list_roles_by_user_id = list_roles_by_user_id;
    exists_by_email = exists_by_email;
    deactivate_registration_auth = deactivate_registration_auth;
    delete_by_user_id = delete_by_user_id;
  }
