-- ===== src/Grpc/Sessions.antt =====
-- What a client of the gRPC server gets for a refresh token that is used up.
use ofm_auth_service.Prelude.{String, Bool, true, false, some, ◌≡◌, refl}
use ofm_auth_service.Config.{JwtConfig}
use ofm_auth_service.Domain.{Err}
use ofm_auth_service.Db.{Db}
use ofm_auth_service.Db.Tokens.{IsNamedBy}
use ofm_auth_service.Action.{Env, World, Outcome, ok, err, panicked, Action}
use ofm_auth_service.Action.Refuses.{Refuses}
use ofm_auth_service.Repository.{repo}
use ofm_auth_service.Service.{AuthService, auth_service}
use ofm_auth_service.Service.Sessions.{presented, sign_out_ends_session}
use ofm_auth_service.Grpc.{refresh, sign_out}
use ofm_auth_service.Grpc.Status.{Code, Response, response, status, crashed, reply}

abbrev pub is_response : {A : Type 0} → Response A → Bool
is_response (response a) = true
is_response (status c text) = false
is_response crashed = false

-- The client gets no response, and no table changes.
abbrev pub IsDenied : {A : Type 0} → Db → Response A × World → Type 0
IsDenied db (r, v) = (is_response r ≡ false) × (v.db ≡ db)

module _ {A B : Type 0} (build : A → B) (code_of : Err → Code × String) where
  abbrev answered : Outcome A × World → Response B × World
  answered (o, v) = (reply build code_of o, v)

  reply-response : (r : Outcome A × World) (db : Db) → Refuses db r → IsDenied db (answered r)
  reply-response (ok a, v) db h = absurd (cc (h.0))
  reply-response (err e, v) db h = (refl, h.1)
  reply-response (panicked, v) db h = (refl, h.1)

  respond-response :
      (m : Action A) (r : Outcome A × World) (w v : World) (b : B)
      → m w ≡ r
      → answered r ≡ (response b, v)
      → (a : A) × (m w ≡ (ok a, v))
  respond-response m (ok a, u) w v b q e = (a, cc (q, e))
  respond-response m (err x, u) w v b q e = absurd (cc e)
  respond-response m (panicked, u) w v b q e = absurd (cc e)

module _ (env : Env) (cfg : JwtConfig) where
  -- The server over the service and the PostgreSQL repository.
  abbrev pub service : AuthService
  service = auth_service env (repo env) cfg

  -- Neither handler answers the token with a response, and neither changes a table.
  abbrev pub IsSpent : String → World → Type 0
  IsSpent raw x = IsDenied x.db (refresh service raw x) × IsDenied x.db (sign_out service raw x)

  -- If one stored token has the presented token's hash and the SignOut handler answers with a
  -- response, then on the tables that are left, at any later time and whatever the environment
  -- answers, the Refresh and SignOut handlers answer the same token with no response, and they change
  -- no table.
  pub signed_out-IsSpent :
      (raw id text : String) (w v x : World)
      → env.pg.uuid_in id ≡ some id
      → IsNamedBy (presented env raw) id w.db
      → sign_out service raw w ≡ (response text, v)
      → x.db ≡ v.db
      → IsSpent raw x
  unfolding refresh sign_out
  signed_out-IsSpent raw id text w v x written n done same =
      let (a, e) = respond-response _ _ (service.sign_out raw) _ w v text refl done in
      let (no_refresh, no_sign_out) = sign_out_ends_session env cfg raw id w v x written n e same in
      (
        reply-response _ _ (service.refresh raw x) x.db no_refresh,
        reply-response _ _ (service.sign_out raw x) x.db no_sign_out,
      )
