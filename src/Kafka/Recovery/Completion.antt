-- ===== src/Kafka/Recovery/Completion.antt =====
-- What a recovery command that the handler acknowledges has done.
use ofm_auth_service.Prelude.{
  String, List, true, false, not, ◌||◌, if◌then◌else◌, [], ◌∷◌, ◌++◌, ◌≡◌, refl, ◌⊎◌, inl, inr,
  arith, if-eq, eq_iff, Bool-cases,
}
use ofm_auth_service.Prelude.Text.{◌==◌, trim_space}
use ofm_auth_service.Config.{KafkaConfig}
use ofm_auth_service.Domain.{Credential}
use ofm_auth_service.Action.{
  Env, Reply, value, failure, World, Outcome, ok, err, panicked, advance, Message,
}
use ofm_auth_service.Kafka.Saga.Contents.{Says}
use ofm_auth_service.Service.{AuthService}
use ofm_auth_service.Broker.{Handled, handled, failed, failed_permanently}
use ofm_auth_service.Broker.Publishing.{publish_last-handled}
use ofm_auth_service.Kafka.Recovery.{
  Envelope, RecoveryPayload, Codec, recovered_user, completed, finish, recover_create, recover,
  recover_decoded, handle, create_hashed, recover_envelope, create_with,
}

-- The first text that is not empty.
abbrev first_filled : List String → String
first_filled [] = ""
first_filled (s ∷ rest) = if s == "" then first_filled rest else s

recovered_user-first_filled :
    (cmd : Envelope) (p : RecoveryPayload)
    → recovered_user cmd p
      ≡ first_filled (p.user_id ∷ cmd.aggregate_id ∷ p.client_id ∷ cmd.recovery_principal_id ∷ [])
unfolding recovered_user
recovered_user-first_filled cmd p = ground (arith, eq_iff cmd.recovery_principal_id "")

either-eq : (s : String) → (s == "post" || s == "create") ≡ true → (s ≡ "post") ⊎ (s ≡ "create")
either-eq s e = elim (Bool-cases (s == "post")) [
  | inl post ↦ inl (ground (arith, eq_iff s "post"))
  | inr other ↦ inr (ground (arith, eq_iff s "create"))
]

module _ (env : Env) (codec : Codec) (svc : AuthService) (cfg : KafkaConfig) where
  -- A completion event of the command is published behind the state u, and nothing else.
  abbrev pub IsPublished : Envelope → String → String → World → World → Type 0
  IsPublished cmd user result u v =
      (msg : Message) × (msg.topic ≡ cfg.recovery_completed)
      × Says msg "EventType" "migration.recovery.completed"
      × Says msg "CommandID" cmd.command_id
      × Says msg "CausationID" cmd.event_id
      × Says msg "Operation" cmd.operation
      × Says msg "AggregateID" user
      × Says msg "Payload" result
      × (v.sent ≡ u.sent ++ msg ∷ [])
      × (v.db ≡ u.db)

  finish-handled :
      {A : Type 0} (cmd : Envelope) (user : String) (marshal : A → String) (r : Outcome A × World)
      (v : World)
      → finish env codec svc cfg cmd user marshal r ≡ (handled, v)
      → (a : A) × (u : World) × (r ≡ (ok a, u)) × IsPublished cmd user (marshal a) u v
  unfolding finish
  finish-handled cmd user marshal (ok a, u) v e =
      let (sent, same) = publish_last-handled env _ _ v e in
      let msg = completed env codec svc cfg cmd user (marshal a) u in
      (a, u, refl, (msg, refl, refl, refl, refl, refl, refl, refl, sent, same))
  finish-handled cmd user marshal (err x, u) v e = absurd (cc e)
  finish-handled cmd user marshal (panicked, u) v e = absurd (cc e)

  -- The service has created the user's credential from the payload, with the given hash or the
  -- bcrypt hash of the given password.
  abbrev pub IsRecreated : Envelope → RecoveryPayload → World → World → Type 0
  IsRecreated cmd p w v =
      let user = recovered_user cmd p in
      (hash : String) × (x : World) × (c : Credential) × (u : World) × (svc.create_credential user
          p.email p.username hash x
        ≡ (ok c, u))
      × (((hash ≡ p.password_hash) × (x ≡ w))
          ⊎ ((env.bcrypt_hash w.tick p.password ≡ value hash) × (x ≡ advance w)))
      × IsPublished cmd user (codec.marshal_credential c) u v

  abbrev pub IsRemoved : Envelope → RecoveryPayload → World → World → Type 0
  IsRemoved cmd p w v =
      let user = recovered_user cmd p in
      (u : World) × (svc.delete_credential user w ≡ (ok tt, u)) × IsPublished cmd user "null" u v

  create_hashed-handled :
      (cmd : Envelope) (p : RecoveryPayload) (hashed : Reply String) (w v : World)
      → env.bcrypt_hash w.tick p.password ≡ hashed
      → create_hashed env codec svc cfg cmd (recovered_user cmd p) p hashed (advance w)
        ≡ (handled, v)
      → IsRecreated cmd p w v
  create_hashed-handled cmd p (value hash) w v q e =
      let (c, u, made, sent) = finish-handled cmd _ _ _ v e in
      (hash, advance w, c, u, made, inr (q, refl), sent)
  create_hashed-handled cmd p (failure x) w v q e = absurd (cc e)

  recover_create-handled :
      (cmd : Envelope) (p : RecoveryPayload) (w v : World)
      → recover_create env codec svc cfg cmd (recovered_user cmd p) p w ≡ (handled, v)
      → IsRecreated cmd p w v
  unfolding recover_create
  recover_create-handled cmd p w v e =
      let hashed =
        create_hashed env codec svc cfg cmd (recovered_user cmd p) p
          (env.bcrypt_hash w.tick p.password) (advance w) in
      let refused : Handled × World =
        (failed_permanently "auth recovery payload has neither password_hash nor password", w) in
      elim (if-eq (not (trim_space p.password_hash == ""))
        (create_with env codec svc cfg cmd (recovered_user cmd p) p p.password_hash w)
        (if trim_space p.password == "" then refused else hashed) e) [
          | inl (_, done) ↦
              let (c, u, made, sent) = finish-handled cmd _ _ _ v done in
              (p.password_hash, w, c, u, made, inl (refl, refl), sent)
          | inr (_, rest) ↦ elim (if-eq (trim_space p.password == "") refused hashed rest) [
            | inl (_, left_early) ↦ absurd (cc left_early)
            | inr (_, done) ↦
                create_hashed-handled cmd p (env.bcrypt_hash w.tick p.password) w v refl done
          ]
        ]

  -- The operation, in lower case, says which of the two was done.
  abbrev pub IsDone : Envelope → RecoveryPayload → World → World → Type 0
  IsDone cmd p w v =
      (((codec.to_lower cmd.operation ≡ "post") ⊎ (codec.to_lower cmd.operation ≡ "create"))
        × IsRecreated cmd p w v)
      ⊎ ((codec.to_lower cmd.operation ≡ "delete") × IsRemoved cmd p w v)

  recover-handled :
      (cmd : Envelope) (p : RecoveryPayload) (w v : World)
      → recover env codec svc cfg cmd p w ≡ (handled, v)
      → ((trim_space (recovered_user cmd p) == "") ≡ false) × IsDone cmd p w v
  unfolding recover
  recover-handled cmd p w v e =
      let user = recovered_user cmd p in
      let operation = codec.to_lower cmd.operation in
      let create = recover_create env codec svc cfg cmd user p w in
      let delete = finish env codec svc cfg cmd user (λ _. "null") (svc.delete_credential user w) in
      let unknown : Handled × World =
        (failed (codec.wrapped "unsupported auth recovery operation" cmd.operation), w) in
      let other = if operation == "delete" then delete else unknown in
      elim (if-eq (trim_space user == "")
        (
          failed_permanently
              (codec.wrapped "auth recovery command is missing user_id" cmd.command_id),
          w,
        )
        (if operation == "post" || operation == "create" then create else other) e) [
          | inl (_, left_early) ↦ absurd (cc left_early)
          | inr (named, rest) ↦
              elim (if-eq (operation == "post" || operation == "create") create other rest) [
                | inl (chosen, done) ↦
                    (named, inl (either-eq operation chosen, recover_create-handled cmd p w v done))
                | inr (_, left) ↦ elim (if-eq (operation == "delete") delete unknown left) [
                  | inl (chosen, done) ↦
                      let (_, u, gone, sent) = finish-handled cmd _ _ _ v done in
                      (named, inr (ground (arith, eq_iff operation "delete"), (u, gone, sent)))
                  | inr (_, left_early) ↦ absurd (cc left_early)
                ]
              ]
        ]

  -- What an acknowledged command was, and what it has done.
  abbrev pub IsRecovered : String → World → World → Type 0
  IsRecovered raw w v =
      (cmd : Envelope) × (p : RecoveryPayload) × (codec.decode_envelope raw ≡ value cmd)
      × (codec.decode_payload cmd.payload ≡ value p)
      × (codec.equal_fold cmd.aggregate_type "auth" ≡ true)
      × (recovered_user cmd p
          ≡ first_filled
              (p.user_id ∷ cmd.aggregate_id ∷ p.client_id ∷ cmd.recovery_principal_id ∷ []))
      × ((trim_space (recovered_user cmd p) == "") ≡ false)
      × IsDone cmd p w v

  recover_decoded-handled :
      (cmd : Envelope) (r : Reply RecoveryPayload) (w v : World)
      → recover_decoded env codec svc cfg cmd r w ≡ (handled, v)
      → (p : RecoveryPayload) × (r ≡ value p)
        × ((trim_space (recovered_user cmd p) == "") ≡ false)
        × IsDone cmd p w v
  unfolding recover_decoded
  recover_decoded-handled cmd (value p) w v e =
      let (named, done) = recover-handled cmd p w v e in (p, refl, named, done)
  recover_decoded-handled cmd (failure x) w v e = absurd (cc e)

  recover_envelope-handled :
      (raw : String) (r : Reply Envelope) (w v : World)
      → codec.decode_envelope raw ≡ r
      → recover_envelope env codec svc cfg r w ≡ (handled, v)
      → IsRecovered raw w v
  recover_envelope-handled raw (value cmd) w v q e =
      elim (if-eq (not (codec.equal_fold cmd.aggregate_type "auth"))
        (failed (codec.wrapped "unsupported auth recovery aggregate_type" cmd.aggregate_type), w)
        (recover_decoded env codec svc cfg cmd (codec.decode_payload cmd.payload) w) e) [
          | inl (_, refused) ↦ absurd (cc refused)
          | inr (same, rest) ↦
              let (p, decoded, named, done) = recover_decoded-handled cmd _ w v rest in
              (cmd, p, q, decoded, ground arith, recovered_user-first_filled cmd p, named, done)
        ]
  recover_envelope-handled raw (failure x) w v q e = absurd (cc e)

  -- A recovery command that the handler acknowledges is a well-formed command on an auth aggregate
  -- for a user that is the first of the payload's user, the aggregate, the payload's client and the
  -- principal that is not empty, and not blank. If its operation, in lower case, is post or create, the service
  -- has created the credential (with the payload's hash, or with the bcrypt hash of its password); else
  -- it is delete, and the service has deleted it. The call succeeded, and exactly one
  -- completion event of the command, for that user and
  -- with the call's result, has been published behind it.
  pub recovery_command_completed :
      (raw : String) (w v : World)
      → handle env codec svc cfg raw w ≡ (handled, v)
      → IsRecovered raw w v
  unfolding handle
  recovery_command_completed raw w v e = recover_envelope-handled raw _ w v refl e
