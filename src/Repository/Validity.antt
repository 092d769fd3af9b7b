-- ===== src/Repository/Validity.antt =====
-- The statements of query.go on valid tables.
use ofm_auth_service.Prelude.{
  String, Bool, false, ◌∷◌, ◌≡◌, refl, arith, exists_row, update_rows, inl, inr, Bool-cases,
}
use ofm_auth_service.Prelude.Rows.{
  All-select, All-update_rows, All-mono, Unique-select, Unique-update_rows,
}
use ofm_auth_service.Domain.{
  Time, CreateCredentialParams, CreateVerificationCodeParams, CreateRefreshTokenParams,
}
use ofm_auth_service.Db.{CredentialRow, VerificationCodeRow, Db, Postgres, has_user, has_email}
use ofm_auth_service.Db.Statements.{
  is_user, mark_verified, mark_failed, new_credential, new_code, new_token, create_credential_query,
  create_verification_code_query, verify_registration_email_query, create_refresh_token_query,
  refresh_token_for_rotation_query, revoke_refresh_token_query, get_credential_by_user_id_query,
  get_credential_by_identifier_query, exists_credential_by_email_query, list_roles_by_user_id_query,
  deactivate_registration_auth_query, delete_credential_by_user_id_query, verify_user, is_open_code,
  mark_used, is_live_token, mark_revoked,
}
use ofm_auth_service.Action.{Env}
use ofm_auth_service.Action.Keeps.{StatementKeeps}
use ofm_auth_service.Db.Invariant.{
  IsValid, IsCoherent, with_uuid-Ensures, first_row-Ensures, IsOwned-cons, IsOwned-update_rows,
  select-IsOwned,
}
use ofm_auth_service.Repository.Keeps.{IsKept}

module _ (pg : Postgres) where
  new_credential-IsValid :
      (now : Time) (user : String) (p : CreateCredentialParams) (db : Db)
      → has_user user db.auth_credentials ≡ false
      → has_email p.email db.auth_credentials ≡ false
      → IsValid db
      → IsValid (record db { auth_credentials = new_credential now user p ∷ db.auth_credentials })
  unfolding new_credential
  new_credential-IsValid now user p db nu ne v = record {
    unique_users = (nu, v.unique_users);
    unique_emails = (ne, v.unique_emails);
    unique_codes = v.unique_codes;
    unique_tokens = v.unique_tokens;
    owned_codes = All-mono _ (λ c. IsOwned-cons _ db.auth_credentials c.user_id) v.owned_codes;
    owned_tokens = All-mono _ (λ t. IsOwned-cons _ db.auth_credentials t.user_id) v.owned_tokens;
    owned_roles = All-mono _ (λ r. IsOwned-cons _ db.auth_credentials r.user_id) v.owned_roles;
    coherent = (refl, v.coherent);
  }

  create_credential_query-IsValid :
      (p : CreateCredentialParams) → StatementKeeps IsValid (create_credential_query pg p)
  unfolding create_credential_query
  create_credential_query-IsValid p = record {
    at = λ m db v. with_uuid-Ensures IsValid (pg.uuid_in p.user_id) _ λ user.
        elim (Bool-cases (has_user user db.auth_credentials)) [
          | inl taken ↦ rw taken tt
          | inr nu ↦ elim (Bool-cases (has_email p.email db.auth_credentials)) [
            | inl taken ↦ rw (nu, taken) tt
            | inr ne ↦ rw (nu, ne) (new_credential-IsValid m.now user p db nu ne v)
          ]
        ];
  }

  create_verification_code_query-IsValid :
      (p : CreateVerificationCodeParams)
      → StatementKeeps IsValid (create_verification_code_query pg p)
  unfolding create_verification_code_query new_code
  create_verification_code_query-IsValid p = record {
    at = λ m db v.
        with_uuid-Ensures IsValid (pg.uuid_in p.id) _
          λ id. with_uuid-Ensures IsValid (pg.uuid_in p.user_id) _ λ user. ground arith;
  }

  create_refresh_token_query-IsValid :
      (p : CreateRefreshTokenParams) → StatementKeeps IsValid (create_refresh_token_query pg p)
  unfolding create_refresh_token_query new_token
  create_refresh_token_query-IsValid p = record {
    at = λ m db v.
        with_uuid-Ensures IsValid (pg.uuid_in p.id) _
          λ id. with_uuid-Ensures IsValid (pg.uuid_in p.user_id) _ λ user. ground arith;
  }

-- A change of the credentials that leaves keys and emails alone and makes coherent rows.
module _ (p : CredentialRow → Bool) (f : CredentialRow → CredentialRow) where
  update_credentials-IsValid :
      ((r : CredentialRow) → ((f r).user_id ≡ r.user_id) × ((f r).email ≡ r.email))
      → ((r : CredentialRow) → IsCoherent r → IsCoherent (f r))
      → (db : Db) → IsValid db
      → IsValid (record db { auth_credentials = update_rows p f db.auth_credentials })
  update_credentials-IsValid k c db v = record {
    unique_users = Unique-update_rows _ p f _ (λ r. (k r).0) v.unique_users;
    unique_emails = Unique-update_rows _ p f _ (λ r. (k r).1) v.unique_emails;
    unique_codes = v.unique_codes;
    unique_tokens = v.unique_tokens;
    owned_codes =
        All-mono _ (λ x. IsOwned-update_rows p f (λ r. (k r).0) db.auth_credentials x.user_id)
          v.owned_codes;
    owned_tokens =
        All-mono _ (λ x. IsOwned-update_rows p f (λ r. (k r).0) db.auth_credentials x.user_id)
          v.owned_tokens;
    owned_roles =
        All-mono _ (λ x. IsOwned-update_rows p f (λ r. (k r).0) db.auth_credentials x.user_id)
          v.owned_roles;
    coherent = All-update_rows p f db.auth_credentials c v.coherent;
  }

-- A change of codes or tokens that leaves keys and owners alone.
update_codes-IsValid :
    (p : VerificationCodeRow → Bool) (now : Time) (db : Db)
    → IsValid db
    → IsValid (record db {
      email_verification_codes = update_rows p (mark_used now) db.email_verification_codes;
    })
update_codes-IsValid p now db v = record {
  unique_users = v.unique_users;
  unique_emails = v.unique_emails;
  unique_codes = Unique-update_rows _ p (mark_used now) _ (λ c. refl) v.unique_codes;
  unique_tokens = v.unique_tokens;
  owned_codes = All-update_rows p (mark_used now) _ (λ c h. h) v.owned_codes;
  owned_tokens = v.owned_tokens;
  owned_roles = v.owned_roles;
  coherent = v.coherent;
}

module _ (pg : Postgres) where
  verify_registration_email_query-IsValid :
      (user_id hash : String) (now : Time)
      → StatementKeeps IsValid (verify_registration_email_query pg user_id hash now)
  unfolding verify_registration_email_query verify_user
  verify_registration_email_query-IsValid user_id hash now = record {
    at = λ m db v. with_uuid-Ensures IsValid (pg.uuid_in user_id) _ λ user.
        elim (Bool-cases (exists_row (is_open_code pg user hash now) db.email_verification_codes)) [
          | inl open_code ↦ rw open_code (
              first_row-Ensures IsValid _ _ (
                update_codes-IsValid _ m.now _ (
                  update_credentials-IsValid (is_user user) (mark_verified m.now)
                    (λ r. (refl, refl)) (λ r c. refl) db v)))
          | inr nothing ↦ rw nothing tt
        ];
  }

  deactivate_registration_auth_query-IsValid :
      (user_id : String) → StatementKeeps IsValid (deactivate_registration_auth_query pg user_id)
  unfolding deactivate_registration_auth_query
  deactivate_registration_auth_query-IsValid user_id = record {
    at = λ m db v. with_uuid-Ensures IsValid (pg.uuid_in user_id) _ λ user.
        update_credentials-IsValid (is_user user) (mark_failed m.now) (λ r. (refl, refl))
          (λ r c. refl) db v;
  }

  revoke_refresh_token_query-IsValid :
      (id : String) (now : Time) → StatementKeeps IsValid (revoke_refresh_token_query pg id now)
  unfolding revoke_refresh_token_query
  revoke_refresh_token_query-IsValid id now = record {
    at = λ m db v. with_uuid-Ensures IsValid (pg.uuid_in id) _ λ token. record {
      unique_users = v.unique_users;
      unique_emails = v.unique_emails;
      unique_codes = v.unique_codes;
      unique_tokens =
          Unique-update_rows _ (is_live_token token) (mark_revoked pg now) _ (λ t. refl)
            v.unique_tokens;
      owned_codes = v.owned_codes;
      owned_tokens =
          All-update_rows (is_live_token token) (mark_revoked pg now) _ (λ t h. h) v.owned_tokens;
      owned_roles = v.owned_roles;
      coherent = v.coherent;
    };
  }

  delete_credential_by_user_id_query-IsValid :
      (user_id : String) → StatementKeeps IsValid (delete_credential_by_user_id_query pg user_id)
  unfolding delete_credential_by_user_id_query
  delete_credential_by_user_id_query-IsValid user_id = record {
    at = λ m db v. with_uuid-Ensures IsValid (pg.uuid_in user_id) _ λ user. record {
      unique_users = Unique-select _ _ _ v.unique_users;
      unique_emails = Unique-select _ _ _ v.unique_emails;
      unique_codes = Unique-select _ _ _ v.unique_codes;
      unique_tokens = Unique-select _ _ _ v.unique_tokens;
      owned_codes = select-IsOwned _ user db.auth_credentials _ v.owned_codes;
      owned_tokens = select-IsOwned _ user db.auth_credentials _ v.owned_tokens;
      owned_roles = select-IsOwned _ user db.auth_credentials _ v.owned_roles;
      coherent = All-select IsCoherent _ db.auth_credentials v.coherent;
    };
  }

-- A statement that reads keeps everything.
module _ (P : Db → Type 0) (pg : Postgres) where
  pub refresh_token_for_rotation_query-Keeps :
      (hash : String) → StatementKeeps P (refresh_token_for_rotation_query hash)
  unfolding refresh_token_for_rotation_query
  refresh_token_for_rotation_query-Keeps hash = record { at = λ m db v. first_row-Ensures P _ db v }

  pub get_credential_by_user_id_query-Keeps :
      (user : String) → StatementKeeps P (get_credential_by_user_id_query pg user)
  unfolding get_credential_by_user_id_query
  get_credential_by_user_id_query-Keeps user = record {
    at = λ m db v. with_uuid-Ensures P (pg.uuid_in user) _ λ u. first_row-Ensures P _ db v;
  }

  pub get_credential_by_identifier_query-Keeps :
      (identifier : String) → StatementKeeps P (get_credential_by_identifier_query identifier)
  unfolding get_credential_by_identifier_query
  get_credential_by_identifier_query-Keeps identifier = record {
    at = λ m db v. first_row-Ensures P _ db v;
  }

  pub exists_credential_by_email_query-Keeps :
      (email : String) → StatementKeeps P (exists_credential_by_email_query email)
  unfolding exists_credential_by_email_query
  exists_credential_by_email_query-Keeps email = record { at = λ m db v. v }

  pub list_roles_by_user_id_query-Keeps :
      (user : String) → StatementKeeps P (list_roles_by_user_id_query pg user)
  unfolding list_roles_by_user_id_query
  list_roles_by_user_id_query-Keeps user = record {
    at = λ m db v. with_uuid-Ensures P (pg.uuid_in user) _ λ u. v;
  }

-- So no method of the PostgreSQL repository breaks the tables.
pub IsValid-IsKept : (env : Env) → IsKept IsValid env
IsValid-IsKept env = record {
  create_credential = create_credential_query-IsValid env.pg;
  create_verification_code = create_verification_code_query-IsValid env.pg;
  verify_registration_email = verify_registration_email_query-IsValid env.pg;
  create_refresh_token = create_refresh_token_query-IsValid env.pg;
  refresh_token_for_rotation = refresh_token_for_rotation_query-Keeps IsValid env.pg;
  revoke_refresh_token = revoke_refresh_token_query-IsValid env.pg;
  get_credential_by_user_id = get_credential_by_user_id_query-Keeps IsValid env.pg;
  get_credential_by_identifier = get_credential_by_identifier_query-Keeps IsValid env.pg;
  exists_credential_by_email = exists_credential_by_email_query-Keeps IsValid env.pg;
  list_roles_by_user_id = list_roles_by_user_id_query-Keeps IsValid env.pg;
  deactivate_registration_auth = deactivate_registration_auth_query-IsValid env.pg;
  delete_credential_by_user_id = delete_credential_by_user_id_query-IsValid env.pg;
}
