-- ===== src/Service/Pending.antt =====
-- CreatePendingRegistration over the PostgreSQL repository, and the code that it returns.
use ofm_auth_service.Prelude.{ℕ, String, true, some, ◌≡◌, refl, subst, arith, exists_row, eq_refl}
use ofm_auth_service.Prelude.Int.{◌+ℤ◌, ltb_ℤ}
use ofm_auth_service.Config.{JwtConfig}
use ofm_auth_service.Domain.{Time, CreateVerificationCodeParams, PendingRegistrationResult}
use ofm_auth_service.Db.{Db, Moment, answer, has_user}
use ofm_auth_service.Db.Statements.{create_verification_code_query, is_open_code}
use ofm_auth_service.Action.{Env, World, pure}
use ofm_auth_service.Action.Post.{Post, Post-bind, Post-of-eq, Post-execute}
use ofm_auth_service.Repository.{repo, create_verification_code}
use ofm_auth_service.Service.{create_pending_registration, hash_verification_code, ten_minutes}
use ofm_auth_service.Db.Tokens.{with_uuid-eq-answer}
use ofm_auth_service.Action.Inversion.{or_err-eq-ok}
use ofm_auth_service.Service.Encoding.Bare.{IsTrimmed, generate_verification_code-IsTrimmed}
use ofm_auth_service.Service.Refinement.{now_utc-Post}

module _ (env : Env) where
  -- The user is stored, and has an open code with the hash until the time is over.
  abbrev pub IsPendingUntil : String → String → Time → Db → Type 0
  IsPendingUntil user_id hash end db =
      (user : String) × (env.pg.uuid_in user_id ≡ some user)
      × (has_user user db.auth_credentials ≡ true)
      × ((later : Time)
          → ltb_ℤ (env.pg.timestamptz later) (env.pg.timestamptz end) ≡ true
          → exists_row (is_open_code env.pg user hash later) db.email_verification_codes ≡ true)

  query-IsPending :
      (p : CreateVerificationCodeParams) (m : Moment) (db : Db) (a : Unit {0}) (db' : Db)
      → create_verification_code_query env.pg p m db ≡ answer a db'
      → IsPendingUntil p.user_id p.token_hash p.expires_at db'
  unfolding create_verification_code_query exists_row
  query-IsPending p m db a db' e =
      let (id, named, inner) = with_uuid-eq-answer (env.pg.uuid_in p.id) _ e in
      let (user, known, stored) = with_uuid-eq-answer (env.pg.uuid_in p.user_id) _ inner in
      (
        user,
        known,
        ground (arith, stored),
        λ later le. ground (arith, stored, le, eq_refl user, eq_refl p.token_hash),
      )

  create_verification_code-Post :
      (p : CreateVerificationCodeParams) (u : World)
      → Post
          (λ _ v. IsPendingUntil p.user_id p.token_hash p.expires_at v.db)
          (create_verification_code env p u)
  unfolding create_verification_code
  create_verification_code-Post p u =
      Post-execute (λ _ v. IsPendingUntil p.user_id p.token_hash p.expires_at v.db) env _
        (create_verification_code_query env.pg p) u
        λ a after e. query-IsPending p (env.moment u.tick) u.db a after e

module _ (env : Env) (cfg : JwtConfig) where
  -- The returned code is open for ten minutes from a reading of the clock, and has no blanks around
  -- it.
  abbrev pub IsVerifiable : String → PendingRegistrationResult → World → Type 0
  IsVerifiable user_id r v =
      (n : ℕ) × IsTrimmed r.verification_code
      × IsPendingUntil env user_id (hash_verification_code env r.verification_code)
          (env.clock n +ℤ ten_minutes) v.db

  pub pending-IsVerifiable :
      (user_id email username password_hash : String) (w : World)
      → Post
          (IsVerifiable user_id)
          (create_pending_registration env (repo env) cfg user_id email username password_hash w)
  unfolding create_pending_registration pure
  pending-IsVerifiable user_id email username password_hash w =
      Post-bind (λ _ _. Unit) _ _ _ w (Post-of-eq _ _ λ _ _ _. tt)
        λ c u _.
          Post-bind (λ text _. IsTrimmed text) _ _ _ u
            (Post-of-eq _ _
              λ text v e. generate_verification_code-IsTrimmed env u v text (or_err-eq-ok _ _ u e))
            λ code u1 trimmed.
              Post-bind (λ now x. (now ≡ env.clock u1.tick) × (x.db ≡ u1.db)) _ _ _ u1
                (now_utc-Post env u1 u1 refl)
                λ now u2 (clock, _).
                  Post-bind (λ _ _. Unit) _ _ _ u2 (Post-of-eq _ _ λ _ _ _. tt)
                    λ id u3 _.
                      Post-bind _ _ _ _ u3 (create_verification_code-Post env _ u3) λ _ v pending. (
                        u1.tick,
                        trimmed,
                        subst
                            (λ t.
                              IsPendingUntil env user_id (hash_verification_code env code)
                                (t +ℤ ten_minutes) v.db)
                            clock pending,
                      )
