-- ===== src/Service/Keeps.antt =====
-- The rules for what a method of the service keeps of the tables, from the repository's.
use ofm_auth_service.Prelude.{String}
use ofm_auth_service.Config.{JwtConfig}
use ofm_auth_service.Domain.{Credential, Time}
use ofm_auth_service.Db.{Db}
use ofm_auth_service.Action.{Env, Reply, value, failure}
use ofm_auth_service.Action.Keeps.{Keeps, keeps_rules, Keeps-pure, Keeps-throw}
use ofm_auth_service.Repository.{AuthRepository}
use ofm_auth_service.Repository.Keeps.{RepositoryKeeps}
use ofm_auth_service.Service.{
  AuthService, auth_service, generate_verification_code, generate_random_token, signed,
  sign_access_token, create_credential, create_pending_registration, exists_by_email,
  get_email_by_user_id, verify_registration_email, issue_tokens, issue_registration_tokens, sign_in,
  refresh, sign_out, deactivate_registration_auth, delete_credential,
}
use ofm_auth_service.Prelude.Int.{ℤ}

-- Every method of a service keeps P.
pub record ServiceKeeps (P : Db → Type 0) (s : AuthService) : Type 0 where
  pub create_credential :
      (user email username hash : String) → Keeps P (s.create_credential user email username hash)
  pub create_pending_registration :
      (user email username hash : String)
      → Keeps P (s.create_pending_registration user email username hash)
  pub exists_by_email : (email : String) → Keeps P (s.exists_by_email email)
  pub get_email_by_user_id : (user : String) → Keeps P (s.get_email_by_user_id user)
  pub verify_registration_email :
      (user code : String) → Keeps P (s.verify_registration_email user code)
  pub issue_registration_tokens : (user : String) → Keeps P (s.issue_registration_tokens user)
  pub sign_in : (identifier password : String) → Keeps P (s.sign_in identifier password)
  pub refresh : (token : String) → Keeps P (s.refresh token)
  pub sign_out : (token : String) → Keeps P (s.sign_out token)
  pub deactivate_registration_auth : (user : String) → Keeps P (s.deactivate_registration_auth user)
  pub delete_credential : (user : String) → Keeps P (s.delete_credential user)

module _ {P : Db → Type 0} (env : Env) where
  pub Keeps-generate_verification_code : Keeps P (generate_verification_code env)
  unfolding generate_verification_code
  Keeps-generate_verification_code = search keeps_rules

  pub Keeps-generate_random_token : (n : ℤ) → Keeps P (generate_random_token env n)
  unfolding generate_random_token
  Keeps-generate_random_token n = search keeps_rules

  Keeps-signed : (r : Reply String) → Keeps P (signed env r)
  unfolding signed
  Keeps-signed (value token) = Keeps-pure token
  Keeps-signed (failure text) = Keeps-throw _

  pub Keeps-sign_access_token :
      (cfg : JwtConfig) (c : Credential) (now : Time) → Keeps P (sign_access_token env cfg c now)
  unfolding sign_access_token
  Keeps-sign_access_token cfg c now = Keeps-signed _

ruleset service_rules = (
  keeps_rules, Keeps-generate_verification_code, Keeps-generate_random_token,
  Keeps-sign_access_token,
)

module _ {P : Db → Type 0} (env : Env) (r : AuthRepository) (cfg : JwtConfig) where
  Keeps-create_credential :
      RepositoryKeeps P r
      → (user email username hash : String)
      → Keeps P (create_credential env r cfg user email username hash)
  unfolding create_credential
  Keeps-create_credential k user email username hash = search (service_rules, k.create) depth 8

  Keeps-create_pending_registration :
      RepositoryKeeps P r
      → (user email username hash : String)
      → Keeps P (create_pending_registration env r cfg user email username hash)
  unfolding create_pending_registration
  Keeps-create_pending_registration k user email username hash =
      search (service_rules, Keeps-create_credential k, k.create_verification_code) depth 12

  Keeps-issue_tokens : RepositoryKeeps P r → (c : Credential) → Keeps P (issue_tokens env r cfg c)
  unfolding issue_tokens
  Keeps-issue_tokens k c = search (service_rules, k.create_refresh_token) depth 10

  Keeps-issue_registration_tokens :
      RepositoryKeeps P r → (user : String) → Keeps P (issue_registration_tokens env r cfg user)
  unfolding issue_registration_tokens
  Keeps-issue_registration_tokens k user =
      search (service_rules, k.get_by_user_id, Keeps-issue_tokens k) depth 8

  Keeps-sign_in :
      RepositoryKeeps P r
      → (identifier password : String) → Keeps P (sign_in env r cfg identifier password)
  unfolding sign_in
  Keeps-sign_in k identifier password =
      search (service_rules, k.get_by_identifier, Keeps-issue_tokens k) depth 8

  Keeps-refresh : RepositoryKeeps P r → (token : String) → Keeps P (refresh env r cfg token)
  unfolding refresh
  Keeps-refresh k token = search (service_rules, k.rotate_refresh_token) depth 12

  Keeps-sign_out : RepositoryKeeps P r → (token : String) → Keeps P (sign_out env r cfg token)
  unfolding sign_out
  Keeps-sign_out k token = search (service_rules, k.revoke_refresh_token) depth 8

  Keeps-verify_registration_email :
      RepositoryKeeps P r
      → (user code : String) → Keeps P (verify_registration_email env r cfg user code)
  unfolding verify_registration_email
  Keeps-verify_registration_email k user code =
      search (service_rules, k.verify_registration_email) depth 8

  Keeps-exists_by_email :
      RepositoryKeeps P r → (email : String) → Keeps P (exists_by_email env r cfg email)
  unfolding exists_by_email
  Keeps-exists_by_email k email = search (service_rules, k.exists_by_email)

  Keeps-get_email_by_user_id :
      RepositoryKeeps P r → (user : String) → Keeps P (get_email_by_user_id env r cfg user)
  unfolding get_email_by_user_id
  Keeps-get_email_by_user_id k user = search (service_rules, k.get_by_user_id)

  Keeps-deactivate :
      RepositoryKeeps P r → (user : String) → Keeps P (deactivate_registration_auth env r cfg user)
  unfolding deactivate_registration_auth
  Keeps-deactivate k user = search (service_rules, k.deactivate_registration_auth)

  Keeps-delete : RepositoryKeeps P r → (user : String) → Keeps P (delete_credential env r cfg user)
  unfolding delete_credential
  Keeps-delete k user = search (service_rules, k.delete_by_user_id)

  -- The service over any repository that keeps P keeps P.
  pub service-Keeps : RepositoryKeeps P r → ServiceKeeps P (auth_service env r cfg)
  service-Keeps k = record {
    create_credential = Keeps-create_credential k;
    create_pending_registration = Keeps-create_pending_registration k;
    exists_by_email = Keeps-exists_by_email k;
    get_email_by_user_id = Keeps-get_email_by_user_id k;
    verify_registration_email = Keeps-verify_registration_email k;
    issue_registration_tokens = Keeps-issue_registration_tokens k;
    sign_in = Keeps-sign_in k;
    refresh = Keeps-refresh k;
    sign_out = Keeps-sign_out k;
    deactivate_registration_auth = Keeps-deactivate k;
    delete_credential = Keeps-delete k;
  }
