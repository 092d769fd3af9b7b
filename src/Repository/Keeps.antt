-- ===== src/Repository/Keeps.antt =====
-- The rules for what a method of the repository keeps of the tables, from the statements'.
use ofm_auth_service.Prelude.{String}
use ofm_auth_service.Db.{Db}
use ofm_auth_service.Action.{Env}
use ofm_auth_service.Action.Keeps.{Keeps, StatementKeeps, keeps_rules}
use ofm_auth_service.Domain.{
  Time, CreateCredentialParams, CreateVerificationCodeParams, CreateRefreshTokenParams,
  RotateRefreshTokenParams, RevokeRefreshTokenParams, Credential,
}
use ofm_auth_service.Db.Statements.{
  create_credential_query, create_verification_code_query, verify_registration_email_query,
  create_refresh_token_query, refresh_token_for_rotation_query, revoke_refresh_token_query,
  get_credential_by_user_id_query, get_credential_by_identifier_query,
  exists_credential_by_email_query, list_roles_by_user_id_query, deactivate_registration_auth_query,
  delete_credential_by_user_id_query,
}
use ofm_auth_service.Repository.{
  attach_roles, create, verify_registration_email, load_refresh_token_for_mutation, rotate_body,
  rotate_refresh_token, revoke_body, revoke_refresh_token, get_by_user_id, get_by_identifier,
  deactivate_registration_auth, delete_by_user_id, AuthRepository, repo, create_verification_code,
  create_refresh_token, exists_by_email,
}

-- A property of the tables that no statement of query.go breaks.
pub record IsKept (P : Db → Type 0) (env : Env) : Type 0 where
  pub create_credential :
      (p : CreateCredentialParams) → StatementKeeps P (create_credential_query env.pg p)
  pub create_verification_code :
      (p : CreateVerificationCodeParams)
      → StatementKeeps P (create_verification_code_query env.pg p)
  pub verify_registration_email :
      (user hash : String) (now : Time)
      → StatementKeeps P (verify_registration_email_query env.pg user hash now)
  pub create_refresh_token :
      (p : CreateRefreshTokenParams) → StatementKeeps P (create_refresh_token_query env.pg p)
  pub refresh_token_for_rotation :
      (hash : String) → StatementKeeps P (refresh_token_for_rotation_query hash)
  pub revoke_refresh_token :
      (id : String) (now : Time) → StatementKeeps P (revoke_refresh_token_query env.pg id now)
  pub get_credential_by_user_id :
      (user : String) → StatementKeeps P (get_credential_by_user_id_query env.pg user)
  pub get_credential_by_identifier :
      (identifier : String) → StatementKeeps P (get_credential_by_identifier_query identifier)
  pub exists_credential_by_email :
      (email : String) → StatementKeeps P (exists_credential_by_email_query email)
  pub list_roles_by_user_id :
      (user : String) → StatementKeeps P (list_roles_by_user_id_query env.pg user)
  pub deactivate_registration_auth :
      (user : String) → StatementKeeps P (deactivate_registration_auth_query env.pg user)
  pub delete_credential_by_user_id :
      (user : String) → StatementKeeps P (delete_credential_by_user_id_query env.pg user)

-- The law of the repository's interface that the service's proofs use.
pub record RepositoryKeeps (P : Db → Type 0) (r : AuthRepository) : Type 0 where
  pub create : (p : CreateCredentialParams) → Keeps P (r.create p)
  pub create_verification_code :
      (p : CreateVerificationCodeParams) → Keeps P (r.create_verification_code p)
  pub verify_registration_email :
      (user hash : String) (now : Time) → Keeps P (r.verify_registration_email user hash now)
  pub create_refresh_token : (p : CreateRefreshTokenParams) → Keeps P (r.create_refresh_token p)
  pub rotate_refresh_token : (p : RotateRefreshTokenParams) → Keeps P (r.rotate_refresh_token p)
  pub revoke_refresh_token : (p : RevokeRefreshTokenParams) → Keeps P (r.revoke_refresh_token p)
  pub get_by_user_id : (user : String) → Keeps P (r.get_by_user_id user)
  pub get_by_identifier : (identifier : String) → Keeps P (r.get_by_identifier identifier)
  pub exists_by_email : (email : String) → Keeps P (r.exists_by_email email)
  pub deactivate_registration_auth : (user : String) → Keeps P (r.deactivate_registration_auth user)
  pub delete_by_user_id : (user : String) → Keeps P (r.delete_by_user_id user)

module _ {P : Db → Type 0} (env : Env) (k : IsKept P env) where
  Keeps-attach_roles : (c : Credential) → Keeps P (attach_roles env c)
  unfolding attach_roles
  Keeps-attach_roles c = search (keeps_rules, k.list_roles_by_user_id)

  Keeps-create : (p : CreateCredentialParams) → Keeps P (create env p)
  unfolding create
  Keeps-create p = search (keeps_rules, k.create_credential, Keeps-attach_roles)

  Keeps-verify_registration_email :
      (user hash : String) (now : Time) → Keeps P (verify_registration_email env user hash now)
  unfolding verify_registration_email
  Keeps-verify_registration_email user hash now =
      search (keeps_rules, k.verify_registration_email, Keeps-attach_roles)

  Keeps-load : (hash : String) (now : Time) → Keeps P (load_refresh_token_for_mutation env hash now)
  unfolding load_refresh_token_for_mutation
  Keeps-load hash now = search (keeps_rules, k.refresh_token_for_rotation)

  Keeps-rotate_body : (p : RotateRefreshTokenParams) → Keeps P (rotate_body env p)
  unfolding rotate_body
  Keeps-rotate_body p =
      search (keeps_rules, Keeps-load, k.revoke_refresh_token, k.create_refresh_token)

  Keeps-rotate_refresh_token : (p : RotateRefreshTokenParams) → Keeps P (rotate_refresh_token env p)
  unfolding rotate_refresh_token
  Keeps-rotate_refresh_token p = search (keeps_rules, Keeps-rotate_body, Keeps-attach_roles)

  Keeps-revoke_body : (p : RevokeRefreshTokenParams) → Keeps P (revoke_body env p)
  unfolding revoke_body
  Keeps-revoke_body p = search (keeps_rules, Keeps-load, k.revoke_refresh_token)

  Keeps-revoke_refresh_token : (p : RevokeRefreshTokenParams) → Keeps P (revoke_refresh_token env p)
  unfolding revoke_refresh_token
  Keeps-revoke_refresh_token p = search (keeps_rules, Keeps-revoke_body, Keeps-attach_roles)

  Keeps-get_by_user_id : (user : String) → Keeps P (get_by_user_id env user)
  unfolding get_by_user_id
  Keeps-get_by_user_id user = search (keeps_rules, k.get_credential_by_user_id, Keeps-attach_roles)

  Keeps-get_by_identifier : (identifier : String) → Keeps P (get_by_identifier env identifier)
  unfolding get_by_identifier
  Keeps-get_by_identifier identifier = search (keeps_rules, k.get_credential_by_identifier)

  Keeps-deactivate : (user : String) → Keeps P (deactivate_registration_auth env user)
  unfolding deactivate_registration_auth
  Keeps-deactivate user = search (keeps_rules, k.deactivate_registration_auth)

  Keeps-delete : (user : String) → Keeps P (delete_by_user_id env user)
  unfolding delete_by_user_id
  Keeps-delete user = search (keeps_rules, k.delete_credential_by_user_id)

  Keeps-create_verification_code :
      (p : CreateVerificationCodeParams) → Keeps P (create_verification_code env p)
  unfolding create_verification_code
  Keeps-create_verification_code p = search (keeps_rules, k.create_verification_code)

  Keeps-create_refresh_token : (p : CreateRefreshTokenParams) → Keeps P (create_refresh_token env p)
  unfolding create_refresh_token
  Keeps-create_refresh_token p = search (keeps_rules, k.create_refresh_token)

  Keeps-exists_by_email : (email : String) → Keeps P (exists_by_email env email)
  unfolding exists_by_email
  Keeps-exists_by_email email = search (keeps_rules, k.exists_credential_by_email)

  -- The PostgreSQL repository keeps what its statements keep.
  pub repo-Keeps : RepositoryKeeps P (repo env)
  repo-Keeps = record {
    create = Keeps-create;
    create_verification_code = Keeps-create_verification_code;
    verify_registration_email = Keeps-verify_registration_email;
    create_refresh_token = Keeps-create_refresh_token;
    rotate_refresh_token = Keeps-rotate_refresh_token;
    revoke_refresh_token = Keeps-revoke_refresh_token;
    get_by_user_id = Keeps-get_by_user_id;
    get_by_identifier = Keeps-get_by_identifier;
    exists_by_email = Keeps-exists_by_email;
    deactivate_registration_auth = Keeps-deactivate;
    delete_by_user_id = Keeps-delete;
  }
