-- ===== src/Service/Quiet.antt =====
-- The service publishes nothing while it registers or deletes a user.
use ofm_auth_service.Prelude.{String}
use ofm_auth_service.Config.{JwtConfig}
use ofm_auth_service.Domain.{Credential, CreateCredentialParams, CreateVerificationCodeParams}
use ofm_auth_service.Action.{Env}
use ofm_auth_service.Action.Quiet.{IsQuiet, quiet_rules}
use ofm_auth_service.Repository.{attach_roles, create, create_verification_code, repo}
use ofm_auth_service.Service.{
  generate_verification_code, create_credential, create_pending_registration,
}

module _ (env : Env) (cfg : JwtConfig) where
  IsQuiet-attach_roles : (c : Credential) → IsQuiet (attach_roles env c)
  unfolding attach_roles
  IsQuiet-attach_roles c = search quiet_rules

  IsQuiet-create : (p : CreateCredentialParams) → IsQuiet (create env p)
  unfolding create
  IsQuiet-create p = search (quiet_rules, IsQuiet-attach_roles)

  IsQuiet-create_verification_code :
      (p : CreateVerificationCodeParams) → IsQuiet (create_verification_code env p)
  unfolding create_verification_code
  IsQuiet-create_verification_code p = search quiet_rules

  IsQuiet-generate_verification_code : IsQuiet (generate_verification_code env)
  unfolding generate_verification_code
  IsQuiet-generate_verification_code = search quiet_rules

  IsQuiet-create_credential :
      (user email username hash : String)
      → IsQuiet (create_credential env (repo env) cfg user email username hash)
  unfolding create_credential
  IsQuiet-create_credential user email username hash = search (quiet_rules, IsQuiet-create) depth 8

  pub IsQuiet-create_pending_registration :
      (user email username hash : String)
      → IsQuiet (create_pending_registration env (repo env) cfg user email username hash)
  unfolding create_pending_registration
  IsQuiet-create_pending_registration user email username hash =
      search
        (
          quiet_rules, IsQuiet-create_credential, IsQuiet-generate_verification_code,
          IsQuiet-create_verification_code,
        )
        depth 12
