-- ===== src/Kafka/Saga/Registration.antt =====
-- A registration from the create command to the mailed code: handleCreate of
-- kafka/registration_saga_subscriber.go over the application service and the PostgreSQL repository.
use ofm_auth_service.Prelude.{[], ◌∷◌, ◌++◌, ◌≡◌, ◌⊎◌}
use ofm_auth_service.Config.{JwtConfig, KafkaConfig}
use ofm_auth_service.Domain.{Err, PendingRegistrationResult}
use ofm_auth_service.Action.{Env, World, Outcome, ok, err, Message}
use ofm_auth_service.Kafka.Saga.Contents.{IsFailureResult, IsSuccessResult, IsMail}
use ofm_auth_service.Broker.{CreateAuthCommand}
use ofm_auth_service.Repository.{repo}
use ofm_auth_service.Service.{AuthService, auth_service, create_pending_registration}
use ofm_auth_service.Service.Verifiable.{IsAccepted}

module _ (env : Env) (cfg : JwtConfig) (topics : KafkaConfig) where
  -- The service of the process.
  abbrev pub running : AuthService
  running = auth_service env (repo env) cfg

  -- What the service's CreatePendingRegistration does for the command.
  abbrev pub pending : CreateAuthCommand → World → Outcome PendingRegistrationResult × World
  pending cmd =
      create_pending_registration env (repo env) cfg cmd.user_id cmd.email cmd.username
        cmd.password_hash

  -- The service failed, and the failure result with its error was published, or it succeeded, and the
  -- success result and a mail were, both with its code, which verifies the user.
  abbrev pub IsRegistered : CreateAuthCommand → World → World → Type 0
  IsRegistered cmd w v =
      ((e : Err) × (u : World) × (msg : Message) × (pending cmd w ≡ (err e, u))
        × IsFailureResult topics cmd e msg
        × (v.sent ≡ w.sent ++ msg ∷ []))
      ⊎ ((r : PendingRegistrationResult) × (u : World) × (msg mail : Message) × (pending cmd w
            ≡ (ok r, u))
          × IsSuccessResult topics cmd r msg
          × IsMail topics cmd r mail
          × (v.sent ≡ w.sent ++ msg ∷ mail ∷ [])
          × IsAccepted env cfg cmd.user_id r.verification_code v)
