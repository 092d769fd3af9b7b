-- ===== src/Grpc.antt =====
-- internal/presentation/grpc/server.go: the handlers of the gRPC server, over the service's
-- interface. A handler answers with a response or with a status; a panic of the service goes
-- through.
pub mod Status
pub mod Server
pub mod Sessions
use ofm_auth_service.Prelude.{String, Bool}
use ofm_auth_service.Prelude.Int.{ℤ}
use ofm_auth_service.Domain.{
  Err, invalid_refresh_token, refresh_token_expired, refresh_token_revoked, invalid_credentials,
  auth_not_found,
}
use ofm_auth_service.Action.{World}
use ofm_auth_service.Service.{AuthService}
use Status.{
  Code, internal, not_found, invalid_argument, failed_precondition, unauthenticated, Response,
  status, respond,
}

pub record GetEmailByUserIdResponse : Type 0 where
  pub user_id : String
  pub email : String

pub record VerifyRegistrationEmailResponse : Type 0 where
  pub user_id : String
  pub email : String
  pub status : String

-- IssueRegistrationTokensResponse, SignInResponse and RefreshResponse have the same fields.
pub record TokensResponse : Type 0 where
  pub user_id : String
  pub access_token : String
  pub refresh_token : String
  pub token_type : String
  pub expires_in : ℤ

pub record DeactivateRegistrationAuthResponse : Type 0 where
  pub user_id : String
  pub status : String

-- The `switch err` of Refresh.
unfoldable pub refresh_status : Err → Code × String
refresh_status invalid_refresh_token = (unauthenticated, "invalid refresh token")
refresh_status refresh_token_expired = (unauthenticated, "invalid refresh token")
refresh_status refresh_token_revoked = (unauthenticated, "invalid refresh token")
refresh_status invalid_credentials = (unauthenticated, "invalid refresh token")
refresh_status auth_not_found = (unauthenticated, "invalid refresh token")
refresh_status _ = (internal, "internal server error")

-- The `switch err` of SignOut.
unfoldable pub sign_out_status : Err → Code × String
sign_out_status invalid_refresh_token = (invalid_argument, "invalid refresh token")
sign_out_status refresh_token_expired = (unauthenticated, "invalid refresh token")
sign_out_status refresh_token_revoked = (unauthenticated, "invalid refresh token")
sign_out_status invalid_credentials = (unauthenticated, "invalid refresh token")
sign_out_status auth_not_found = (unauthenticated, "invalid refresh token")
sign_out_status _ = (internal, "internal server error")

module _ (svc : AuthService) where
  unfoldable pub exists_by_email : String → World → Response Bool × World
  exists_by_email email =
      respond (λ exists. exists) (λ _. (internal, "internal server error"))
        (svc.exists_by_email email)

  unfoldable pub get_email_by_user_id : String → World → Response GetEmailByUserIdResponse × World
  get_email_by_user_id user_id =
      respond (λ email. record { user_id = user_id; email = email })
        (λ _. (not_found, "auth credential not found")) (svc.get_email_by_user_id user_id)

  unfoldable pub verify_registration_email :
      String → String → World → Response VerifyRegistrationEmailResponse × World
  verify_registration_email user_id code =
      respond
        (λ result. record {
          user_id = result.user_id;
          email = result.email;
          status = result.status;
        })
        (λ _. (invalid_argument, "invalid registration email verification"))
        (svc.verify_registration_email user_id code)

  unfoldable pub issue_registration_tokens : String → World → Response TokensResponse × World
  issue_registration_tokens user_id =
      respond
        (λ tokens. record {
          user_id = tokens.user_id;
          access_token = tokens.access_token;
          refresh_token = tokens.refresh_token;
          token_type = tokens.token_type;
          expires_in = tokens.expires_in;
        })
        (λ _. (failed_precondition, "registration tokens unavailable"))
        (svc.issue_registration_tokens user_id)

  unfoldable pub sign_in : String → String → World → Response TokensResponse × World
  sign_in identifier password =
      respond
        (λ tokens. record {
          user_id = tokens.user_id;
          access_token = tokens.access_token;
          refresh_token = tokens.refresh_token;
          token_type = tokens.token_type;
          expires_in = tokens.expires_in;
        })
        (λ _. (unauthenticated, "invalid credentials")) (svc.sign_in identifier password)

  unfoldable pub refresh : String → World → Response TokensResponse × World
  refresh refresh_token =
      respond
        (λ tokens. record {
          user_id = tokens.user_id;
          access_token = tokens.access_token;
          refresh_token = tokens.refresh_token;
          token_type = tokens.token_type;
          expires_in = tokens.expires_in;
        })
        refresh_status (svc.refresh refresh_token)

  -- The response's status.
  unfoldable pub sign_out : String → World → Response String × World
  sign_out refresh_token = respond (λ _. "signed_out") sign_out_status (svc.sign_out refresh_token)

  unfoldable pub deactivate_registration_auth :
      String → World → Response DeactivateRegistrationAuthResponse × World
  deactivate_registration_auth user_id =
      respond (λ _. record { user_id = user_id; status = "registration_failed" })
        (λ _. (internal, "failed to deactivate registration auth"))
        (svc.deactivate_registration_auth user_id)
