-- ===== src/Nats/Saga/Answers.antt =====
-- What the handlers of nats/saga_registration_handler.go have published when they acknowledge a
-- command.
use ofm_auth_service.Prelude.{[], ◌∷◌, ◌++◌, ◌≡◌, refl, ap, ◌∙◌}
use mathlib.Core.List.{append_assoc}
use ofm_auth_service.Config.{NatsConfig}
use ofm_auth_service.Domain.{PendingRegistrationResult}
use ofm_auth_service.Action.{Env, Reply, value, failure, World, Outcome, ok, err, panicked}
use ofm_auth_service.Service.{AuthService}
use ofm_auth_service.Broker.{CreateAuthCommand, DeleteAuthCommand, handled}
use ofm_auth_service.Broker.Publishing.{publish_last-handled, publish_first-handled}
use ofm_auth_service.Nats.Saga.{
  handle_create_auth_command, handle_delete_auth_command, after_create, after_delete,
  create_failure, create_success, mail_command, delete_failure, delete_success,
}

module _ (env : Env) (svc : AuthService) (cfg : NatsConfig) where
  -- What follows the service's answer to a create command, up to the state v.
  abbrev pub IsAnswered :
      CreateAuthCommand → Outcome PendingRegistrationResult × World → World → Type 0
  IsAnswered cmd (ok r, u) v =
      (v.sent ≡ u.sent ++ create_success env svc cfg cmd r u ∷ mail_command env svc cfg cmd r ∷ [])
      × (v.db ≡ u.db)
  IsAnswered cmd (err e, u) v =
      (v.sent ≡ u.sent ++ create_failure env svc cfg cmd e u ∷ []) × (v.db ≡ u.db)
  IsAnswered cmd (panicked, u) v = ⊥

  after_create-handled :
      (cmd : CreateAuthCommand) (r : Outcome PendingRegistrationResult × World) (v : World)
      → after_create env svc cfg cmd r ≡ (handled, v)
      → IsAnswered cmd r v
  unfolding after_create
  after_create-handled cmd (ok r, u) v e =
      let (x, sent, same, h) = publish_first-handled env _ _ _ v e in
      let (sent', same') = publish_last-handled env _ _ v h in
      (
        sent' ∙ ap (λ l. l ++ mail_command env svc cfg cmd r ∷ []) sent ∙ append_assoc u.sent _ _,
        same' ∙ same,
      )
  after_create-handled cmd (err x, u) v e = publish_last-handled env _ _ v e
  after_create-handled cmd (panicked, u) v e = absurd (cc e)

  abbrev pub IsDeleteAnswered : DeleteAuthCommand → Outcome (Unit {0}) × World → World → Type 0
  IsDeleteAnswered cmd (ok _, u) v =
      (v.sent ≡ u.sent ++ delete_success env svc cfg cmd u ∷ []) × (v.db ≡ u.db)
  IsDeleteAnswered cmd (err e, u) v =
      (v.sent ≡ u.sent ++ delete_failure env svc cfg cmd e u ∷ []) × (v.db ≡ u.db)
  IsDeleteAnswered cmd (panicked, u) v = ⊥

  after_delete-handled :
      (cmd : DeleteAuthCommand) (r : Outcome (Unit {0}) × World) (v : World)
      → after_delete env svc cfg cmd r ≡ (handled, v)
      → IsDeleteAnswered cmd r v
  unfolding after_delete
  after_delete-handled cmd (ok _, u) v e = publish_last-handled env _ _ v e
  after_delete-handled cmd (err x, u) v e = publish_last-handled env _ _ v e
  after_delete-handled cmd (panicked, u) v e = absurd (cc e)

  -- A create command that the handler acknowledges was decoded, and the service was called once
  -- with its fields. If that succeeded, the success result and then the mail command with the same
  -- code have been published; if it failed, the failure result and nothing else. The tables are as
  -- the service left them.
  pub handle_create_auth_command-IsAnswered :
      (decoded : Reply CreateAuthCommand) (w v : World)
      → handle_create_auth_command env svc cfg decoded w ≡ (handled, v)
      → (cmd : CreateAuthCommand) × (decoded ≡ value cmd)
        × IsAnswered cmd
            (svc.create_pending_registration cmd.user_id cmd.email cmd.username cmd.password_hash w)
            v
  unfolding handle_create_auth_command
  handle_create_auth_command-IsAnswered (failure x) w v e = absurd (cc e)
  handle_create_auth_command-IsAnswered (value cmd) w v e =
      (cmd, refl, after_create-handled cmd _ v e)

  -- A delete command that the handler acknowledges was decoded, the service was called once with
  -- its user, and exactly one result has been published, of success if the deletion succeeded and
  -- of failure if it failed.
  pub handle_delete_auth_command-IsDeleteAnswered :
      (decoded : Reply DeleteAuthCommand) (w v : World)
      → handle_delete_auth_command env svc cfg decoded w ≡ (handled, v)
      → (cmd : DeleteAuthCommand) × (decoded ≡ value cmd)
        × IsDeleteAnswered cmd (svc.delete_credential cmd.user_id w) v
  unfolding handle_delete_auth_command
  handle_delete_auth_command-IsDeleteAnswered (failure x) w v e = absurd (cc e)
  handle_delete_auth_command-IsDeleteAnswered (value cmd) w v e =
      (cmd, refl, after_delete-handled cmd _ v e)
