-- ===== src/Kafka/Saga/Sending.antt =====
-- What handleCreate of kafka/registration_saga_subscriber.go publishes, over the application service
-- and the PostgreSQL repository.
use ofm_auth_service.Prelude.{
  String, Bool, true, false, Option, none, some, List, [], ◌∷◌, ◌++◌, ◌≡◌, ◌⊎◌, inl, inr, refl, ap,
  sym, ◌∙◌,
}
use mathlib.Core.List.{append_assoc, append-nil}
use ofm_auth_service.Config.{JwtConfig, KafkaConfig}
use ofm_auth_service.Domain.{Err, PendingRegistrationResult}
use ofm_auth_service.Action.{
  Env, Reply, value, failure, World, Outcome, ok, err, panicked, Message, publish, advance,
}
use ofm_auth_service.Broker.{
  CreateAuthCommand, Handled, handled, publish_last, publish_first, publish_then,
}
use ofm_auth_service.Repository.{repo}
use ofm_auth_service.Service.{create_pending_registration}
use ofm_auth_service.Service.Quiet.{IsQuiet-create_pending_registration}
use ofm_auth_service.Kafka.Saga.{
  handle_create, after_create, create_failure, create_success, mail_command,
}
use ofm_auth_service.Kafka.Saga.Answers.{IsAnswered, handle_create-IsAnswered}
use ofm_auth_service.Kafka.Saga.Registration.{running, pending}
use ofm_auth_service.Kafka.Saga.Contents.{IsFailureResult, IsSuccessResult, IsMail}

-- What was published between two states.
abbrev pub Sends : World → World → Type 0
Sends w v = (msgs : List Message) × (v.sent ≡ w.sent ++ msgs)

pub Sends-trans : (w u v : World) → Sends w u → Sends u v → Sends w v
Sends-trans w u v (a, e) (b, h) = (a ++ b, h ∙ ap (λ l. l ++ b) e ∙ append_assoc w.sent a b)

module _ (env : Env) where
  publish-Sends : (msg : Message) (w : World) → Sends w (publish env msg w).1
  unfolding publish
  publish-Sends msg w = told (env.publish_fault w.tick) refl
    where
      told :
          (o : Option (Bool × String))
          → env.publish_fault w.tick ≡ o
          → Sends w (publish env msg w).1
      told none e = rw (e, publish) (msg ∷ [], refl)
      told (some (true, x)) e = rw (e, publish) (msg ∷ [], refl)
      told (some (false, x)) e = rw (e, publish) ([], sym (append-nil w.sent))

  publish_then-Sends :
      (w : World) (r : Option String × World) (k : World → Handled × World)
      → Sends w r.1
      → ((u : World) → Sends u (k u).1)
      → Sends w (publish_then env r k).1
  publish_then-Sends w (none, u) k s h = Sends-trans w u (k u).1 s (h u)
  publish_then-Sends w (some e, u) k s h = s

  publish_last-Sends : (msg : Message) (w : World) → Sends w (publish_last env msg w).1
  unfolding publish_last
  publish_last-Sends msg w =
      publish_then-Sends w (publish env msg w) _ (publish-Sends msg w)
        λ u. ([], sym (append-nil u.sent))

  publish_first-Sends :
      (msg : Message) (k : World → Handled × World) (w : World)
      → ((u : World) → Sends u (k u).1)
      → Sends w (publish_first env msg k w).1
  unfolding publish_first
  publish_first-Sends msg k w h = publish_then-Sends w (publish env msg w) k (publish-Sends msg w) h

module _ (env : Env) (cfg : JwtConfig) (topics : KafkaConfig) where
  -- The answer to a create command that the service was given in the state s: the failure result
  -- with the service's error, or the success result and the mail, both with the service's code.
  abbrev pub IsAnswer : CreateAuthCommand → World → List Message → Type 0
  IsAnswer cmd s msgs =
      ((e : Err) × (u : World) × (msg : Message) × (pending env cfg topics cmd s ≡ (err e, u))
        × IsFailureResult topics cmd e msg
        × (msgs ≡ msg ∷ []))
      ⊎ ((r : PendingRegistrationResult) × (u : World) × (msg mail : Message) × (pending env cfg
              topics cmd s
            ≡ (ok r, u))
          × IsSuccessResult topics cmd r msg
          × IsMail topics cmd r mail
          × (msgs ≡ msg ∷ mail ∷ []))

  after_create-Sends :
      (cmd : CreateAuthCommand) (r : Outcome PendingRegistrationResult × World)
      → Sends r.1 (after_create env (running env cfg topics) topics cmd r).1
  unfolding after_create
  after_create-Sends cmd (ok r, u) =
      let svc = running env cfg topics in
      publish_first-Sends env (create_success env svc topics cmd r u)
        (publish_last env (mail_command env svc topics cmd r)) (advance u)
        λ u'. publish_last-Sends env (mail_command env svc topics cmd r) u'
  after_create-Sends cmd (err e, u) =
      publish_last-Sends env (create_failure env (running env cfg topics) topics cmd e u)
        (advance u)
  after_create-Sends cmd (panicked, u) = ([], sym (append-nil u.sent))

  -- However it ends, the handler adds to what was published.
  pub handle_create-Sends :
      (decoded : Reply CreateAuthCommand) (w : World)
      → Sends w (handle_create env (running env cfg topics) topics decoded w).1
  unfolding handle_create
  handle_create-Sends (failure e) w = ([], sym (append-nil w.sent))
  handle_create-Sends (value cmd) w =
      let r =
        create_pending_registration env (repo env) cfg cmd.user_id cmd.email cmd.username
          cmd.password_hash w in
      Sends-trans w r.1 (after_create env (running env cfg topics) topics cmd r).1
        (
          [],
          (IsQuiet-create_pending_registration env cfg cmd.user_id cmd.email cmd.username
                  cmd.password_hash).at
                w
              ∙ sym (append-nil w.sent),
        )
        (after_create-Sends cmd r)

  pub handle_create-sent :
      (decoded : Reply CreateAuthCommand) (w v : World)
      → handle_create env (running env cfg topics) topics decoded w ≡ (handled, v)
      → (cmd : CreateAuthCommand) × (msgs : List Message) × (decoded ≡ value cmd)
        × IsAnswer cmd w msgs
        × (v.sent ≡ w.sent ++ msgs)
  handle_create-sent decoded w v e =
      let (cmd, q, answered) =
        handle_create-IsAnswered env (running env cfg topics) topics decoded w v e in
      let quiet =
        (IsQuiet-create_pending_registration env cfg cmd.user_id cmd.email cmd.username
            cmd.password_hash).at
          w in
      answers cmd _ q refl quiet answered
    where
      answers :
          (cmd : CreateAuthCommand) (r : Outcome PendingRegistrationResult × World)
          → decoded ≡ value cmd
          → pending env cfg topics cmd w ≡ r
          → r.1.sent ≡ w.sent
          → IsAnswered env (running env cfg topics) topics cmd r v
          → (c : CreateAuthCommand) × (msgs : List Message) × (decoded ≡ value c)
            × IsAnswer c w msgs
            × (v.sent ≡ w.sent ++ msgs)
      answers cmd (ok r, u) q ran quiet (sent, same) = (
        cmd,
        create_success env (running env cfg topics) topics cmd r u
            ∷ mail_command env (running env cfg topics) topics cmd r
            ∷ [],
        q,
        inr (
          r,
          u,
          create_success env (running env cfg topics) topics cmd r u,
          mail_command env (running env cfg topics) topics cmd r,
          ran,
          (refl, (refl, refl, refl), refl, refl, refl, refl, refl),
          (refl, (refl, refl, refl), refl, refl, refl),
          refl,
        ),
        cc (sent, quiet),
      )
      answers cmd (err x, u) q ran quiet (sent, same) = (
        cmd,
        create_failure env (running env cfg topics) topics cmd x u ∷ [],
        q,
        inl (
          x,
          u,
          create_failure env (running env cfg topics) topics cmd x u,
          ran,
          (refl, (refl, refl, refl), refl, refl, refl),
          refl,
        ),
        cc (sent, quiet),
      )
      answers cmd (panicked, u) q ran quiet h = absurd h
