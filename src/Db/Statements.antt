-- ===== src/Db/Statements.antt =====
-- query.go, one function for each statement, with the constraints, the cascades and the trigger of
-- migration/postgres that bear on it. Where a key and the email are both taken, the key is
-- reported: its index is the older one.
use ofm_auth_service.Prelude.{
  ℕ, String, Bool, true, false, none, some, List, [], ◌∷◌, ◌++◌, map, ◌&&◌, ◌||◌, if◌then◌else◌,
  is_none, length, select, exists_row, update_rows, pick_row,
}
use ofm_auth_service.Prelude.Int.{ltb_ℤ}
use ofm_auth_service.Prelude.Text.{◌==◌, ◌!=◌}
use ofm_auth_service.Domain.{
  Time, CreateCredentialParams, CreateVerificationCodeParams, CreateRefreshTokenParams,
  status_pending_registration, status_email_verified, status_registration_failed,
}
use ofm_auth_service.Db.{
  CredentialRow, VerificationCodeRow, RefreshTokenRow, UserRoleRow, no_rows, pg_error,
  unique_violation, foreign_key_violation, Postgres, answer, refuse, Statement, with_uuid,
  first_row, has_user, has_email,
}

abbrev pub is_user : String → CredentialRow → Bool
is_user user r = r.user_id == user

-- A new row of auth_credentials, with the columns' defaults.
unfoldable pub new_credential : Time → String → CreateCredentialParams → CredentialRow
new_credential now user p = record {
  user_id = user;
  email = p.email;
  username = p.username;
  password_hash = p.password_hash;
  email_verified = false;
  status = status_pending_registration;
  roles = [];
  created_at = now;
  updated_at = now;
}

abbrev pub mark_used : Time → VerificationCodeRow → VerificationCodeRow
mark_used now c = record c { used_at = some now }

-- The trigger sets `updated_at` on each update of a credential.
abbrev pub mark_verified : Time → CredentialRow → CredentialRow
mark_verified now r = record r {
  email_verified = true;
  status = status_email_verified;
  updated_at = now;
}

abbrev pub mark_failed : Time → CredentialRow → CredentialRow
mark_failed now r = record r {
  email_verified = false;
  status = status_registration_failed;
  updated_at = now;
}

-- Both updates of verifyRegistrationEmailQuery, for a user that has an open code.
unfoldable pub verify_user : (VerificationCodeRow → Bool) → String → Statement CredentialRow
verify_user is_open user at db =
    let rows = update_rows (is_user user) (mark_verified at.now) db.auth_credentials in
    first_row (pick_row at.row (select (is_user user) rows)) (record db {
      email_verification_codes = update_rows is_open (mark_used at.now) db.email_verification_codes;
      auth_credentials = rows;
    })

-- The join of tokens with their owners.
abbrev pub join_owner :
    RefreshTokenRow → List CredentialRow → List (RefreshTokenRow × CredentialRow)
join_owner t rows = map (λ r. (t, r)) (select (is_user t.user_id) rows)

unfoldable pub join_owners :
    List RefreshTokenRow → List CredentialRow → List (RefreshTokenRow × CredentialRow)
join_owners [] rows = []
join_owners (t ∷ ts) rows = join_owner t rows ++ join_owners ts rows

abbrev pub has_hash : String → RefreshTokenRow → Bool
has_hash hash t = t.token_hash == hash

-- refreshTokenForRotationQuery; refreshTokenForRevokeQuery is the same text.
unfoldable pub refresh_token_for_rotation_query :
    String → Statement (RefreshTokenRow × CredentialRow)
refresh_token_for_rotation_query hash at db =
    first_row
      (pick_row at.row (join_owners (select (has_hash hash) db.refresh_tokens) db.auth_credentials))
      db

abbrev pub is_live_token : String → RefreshTokenRow → Bool
is_live_token id t = t.refresh_token_id == id && is_none t.revoked_at

abbrev pub is_identified : String → CredentialRow → Bool
is_identified identifier r = r.username == identifier || r.email == identifier

-- getCredentialByIdentifierQuery
unfoldable pub get_credential_by_identifier_query : String → Statement CredentialRow
get_credential_by_identifier_query identifier at db =
    first_row (pick_row at.row (select (is_identified identifier) db.auth_credentials)) db

-- existsCredentialByEmailQuery
unfoldable pub exists_credential_by_email_query : String → Statement Bool
exists_credential_by_email_query email at db = answer (has_email email db.auth_credentials) db

module _ (pg : Postgres) where
  -- createCredentialQuery
  unfoldable pub create_credential_query : CreateCredentialParams → Statement CredentialRow
  unfolding new_credential
  create_credential_query p at db = with_uuid (pg.uuid_in p.user_id) λ user.
      if has_user user db.auth_credentials
      then refuse (pg_error unique_violation "auth_credentials_pkey" "duplicate key")
      else if has_email p.email db.auth_credentials
      then refuse (pg_error unique_violation "auth_credentials_email_key" "duplicate key")
      else let row = new_credential at.now user p in
        answer row (record db { auth_credentials = row ∷ db.auth_credentials })

  unfoldable pub new_code :
      Time → String → String → CreateVerificationCodeParams → VerificationCodeRow
  new_code now id user p = record {
    email_verification_code_id = id;
    user_id = user;
    token_hash = p.token_hash;
    expires_at = pg.timestamptz p.expires_at;
    used_at = none;
    created_at = now;
  }

  -- createVerificationCodeQuery
  unfoldable pub create_verification_code_query : CreateVerificationCodeParams → Statement Unit
  unfolding new_code
  create_verification_code_query p at db = with_uuid (pg.uuid_in p.id) λ id.
      with_uuid (pg.uuid_in p.user_id) λ user.
        if exists_row (λ c. c.email_verification_code_id == id) db.email_verification_codes
        then refuse (pg_error unique_violation "email_verification_codes_pkey" "duplicate key")
        else if has_user user db.auth_credentials
        then answer tt (record db {
          email_verification_codes = new_code at.now id user p ∷ db.email_verification_codes;
        })
        else refuse
            (pg_error foreign_key_violation "email_verification_codes_user_id_fkey" "no user")

  -- The WHERE clause of the update of email_verification_codes in verifyRegistrationEmailQuery.
  abbrev pub is_open_code : String → String → Time → VerificationCodeRow → Bool
  is_open_code user hash now c =
      c.user_id == user
      && c.token_hash == hash
      && is_none c.used_at
      && ltb_ℤ (pg.timestamptz now) c.expires_at

  -- verifyRegistrationEmailQuery
  unfoldable pub verify_registration_email_query : String → String → Time → Statement CredentialRow
  unfolding verify_user
  verify_registration_email_query user_id hash now at db = with_uuid (pg.uuid_in user_id) λ user.
      if exists_row (is_open_code user hash now) db.email_verification_codes
      then verify_user (is_open_code user hash now) user at db
      else refuse no_rows

  unfoldable pub new_token : Time → String → String → CreateRefreshTokenParams → RefreshTokenRow
  new_token now id user p = record {
    refresh_token_id = id;
    user_id = user;
    token_hash = p.token_hash;
    expires_at = pg.timestamptz p.expires_at;
    revoked_at = none;
    created_at = now;
  }

  -- createRefreshTokenQuery
  unfoldable pub create_refresh_token_query : CreateRefreshTokenParams → Statement Unit
  unfolding new_token
  create_refresh_token_query p at db = with_uuid (pg.uuid_in p.id) λ id.
      with_uuid (pg.uuid_in p.user_id) λ user.
        if exists_row (λ t. t.refresh_token_id == id) db.refresh_tokens
        then refuse (pg_error unique_violation "refresh_tokens_pkey" "duplicate key")
        else if has_user user db.auth_credentials
        then answer tt
            (record db { refresh_tokens = new_token at.now id user p ∷ db.refresh_tokens })
        else refuse (pg_error foreign_key_violation "refresh_tokens_user_id_fkey" "no user")

  abbrev pub mark_revoked : Time → RefreshTokenRow → RefreshTokenRow
  mark_revoked now t = record t { revoked_at = some (pg.timestamptz now) }

  -- revokeRefreshTokenQuery
  unfoldable pub revoke_refresh_token_query : String → Time → Statement Unit
  revoke_refresh_token_query token_id now at db = with_uuid (pg.uuid_in token_id) λ id.
      answer tt (record db {
        refresh_tokens = update_rows (is_live_token id) (mark_revoked now) db.refresh_tokens;
      })

  -- getCredentialByUserIDQuery
  unfoldable pub get_credential_by_user_id_query : String → Statement CredentialRow
  get_credential_by_user_id_query user_id at db =
      with_uuid (pg.uuid_in user_id)
        λ user. first_row (pick_row at.row (select (is_user user) db.auth_credentials)) db

  -- listRolesByUserIDQuery
  unfoldable pub list_roles_by_user_id_query : String → Statement (List String)
  list_roles_by_user_id_query user_id at db = with_uuid (pg.uuid_in user_id) λ user.
      answer
        (pg.order_by
          (map (λ (r : UserRoleRow). r.role) (select (λ r. r.user_id == user) db.auth_user_roles)))
        db

  -- deactivateRegistrationAuthQuery, with the number of rows affected.
  unfoldable pub deactivate_registration_auth_query : String → Statement ℕ
  deactivate_registration_auth_query user_id at db = with_uuid (pg.uuid_in user_id) λ user.
      answer (length (select (is_user user) db.auth_credentials)) (record db {
        auth_credentials = update_rows (is_user user) (mark_failed at.now) db.auth_credentials;
      })

  -- deleteCredentialByUserIDQuery, with the number of rows affected. The rows of the other tables
  -- that refer to the user go with it.
  unfoldable pub delete_credential_by_user_id_query : String → Statement ℕ
  delete_credential_by_user_id_query user_id at db = with_uuid (pg.uuid_in user_id) λ user.
      answer (length (select (is_user user) db.auth_credentials)) (record {
        auth_credentials = select (λ r. r.user_id != user) db.auth_credentials;
        email_verification_codes = select (λ c. c.user_id != user) db.email_verification_codes;
        refresh_tokens = select (λ t. t.user_id != user) db.refresh_tokens;
        auth_user_roles = select (λ r. r.user_id != user) db.auth_user_roles;
      })
