-- ===== src/Service/Opening.antt =====
-- SignIn and IssueRegistrationTokens over the PostgreSQL repository, on the map of sessions.
use ofm_auth_service.Prelude.{String, ℕ, some, ◌≡◌, refl, ◌∙◌, arith}
use ofm_auth_service.Prelude.Int.{◌+ℤ◌}
use ofm_auth_service.Prelude.Text.{trim_space}
use ofm_auth_service.Config.{JwtConfig}
use ofm_auth_service.Domain.{Credential, TokenPair, CreateRefreshTokenParams}
use ofm_auth_service.Db.{Db, Moment, answer}
use ofm_auth_service.Db.Statements.{create_refresh_token_query, get_credential_by_identifier_query}
use ofm_auth_service.Db.Tokens.{with_uuid-eq-answer}
use ofm_auth_service.Db.Sessions.{sessions, Sessions, update}
use ofm_auth_service.Action.{Env, World, ok, pure}
use ofm_auth_service.Action.Keeps.{Keeps-new_uuid, Keeps-or_err}
use ofm_auth_service.Action.Post.{
  Post, Post-bind, Post-eq-ok, Post-fail_if, Post-reads, Post-execute, Post-or_err,
}
use ofm_auth_service.Repository.{repo, create_refresh_token, get_by_identifier}
use ofm_auth_service.Repository.Sessions.{create-sessions}
use ofm_auth_service.Service.{sign_in, issue_tokens, hash_verification_code, token_pair}
use ofm_auth_service.Service.Keeps.{Keeps-generate_random_token, Keeps-sign_access_token}
use ofm_auth_service.Service.Refinement.{now_utc-Post}

module _ (env : Env) where
  -- The session of the parameters, under their hash, for the user that PostgreSQL reads.
  abbrev Opened : CreateRefreshTokenParams → Sessions → Sessions → Type 0
  Opened p before after =
      (user : String) × (env.pg.uuid_in p.user_id ≡ some user)
      × (after ≡ update before p.token_hash (some (user, env.pg.timestamptz p.expires_at)))

  create-opens :
      (p : CreateRefreshTokenParams) (m : Moment) (db : Db) (a : Unit {0}) (db' : Db)
      → create_refresh_token_query env.pg p m db ≡ answer a db'
      → Opened p (sessions db) (sessions db')
  unfolding create_refresh_token_query
  create-opens p m db a db' e =
      let (id, named, inner) = with_uuid-eq-answer (env.pg.uuid_in p.id) _ e in
      let (user, known, _) = with_uuid-eq-answer (env.pg.uuid_in p.user_id) _ inner in
      (user, known, create-sessions env p user m db a db' known e)

  create_refresh_token-Post :
      (p : CreateRefreshTokenParams) (u : World) (db : Db)
      → u.db ≡ db
      → Post (λ _ v. Opened p (sessions db) (sessions v.db)) (create_refresh_token env p u)
  unfolding create_refresh_token
  create_refresh_token-Post p u db same =
      Post-execute (λ _ v. Opened p (sessions db) (sessions v.db)) env _
        (create_refresh_token_query env.pg p) u
        λ a after e. create-opens p (env.moment u.tick) db a after (cc (e, same))

  get_by_identifier-reads :
      (identifier : String) (u : World) (db : Db)
      → u.db ≡ db
      → Post (λ _ v. v.db ≡ db) (get_by_identifier env identifier u)
  unfolding get_by_identifier pure get_credential_by_identifier_query
  get_by_identifier-reads identifier u db same =
      Post-bind (λ _ v. v.db ≡ db) _ _ _ u
        (Post-execute (λ _ v. v.db ≡ db) env _ (get_credential_by_identifier_query identifier) u
          λ a after e. ground (arith, same, e))
        λ row v h. h

module _ (env : Env) (cfg : JwtConfig) where
  -- One session more than before, for the user of the pair, from a reading of the clock.
  abbrev pub IsOpening : Db → TokenPair → World → Type 0
  IsOpening db pair v =
      (user : String) × (n : ℕ) × (env.pg.uuid_in pair.user_id ≡ some user)
      × (sessions v.db
          ≡ update (sessions db) (hash_verification_code env pair.refresh_token)
              (some (user, env.pg.timestamptz (env.clock n +ℤ cfg.refresh_token_ttl))))

  issue_tokens-IsOpening :
      (c : Credential) (w : World) (db : Db)
      → w.db ≡ db
      → Post (IsOpening db) (issue_tokens env (repo env) cfg c w)
  unfolding issue_tokens token_pair pure
  issue_tokens-IsOpening c w db e =
      Post-bind (λ now u. (now ≡ env.clock w.tick) × (u.db ≡ w.db)) _ _ _ w
        (now_utc-Post env w w refl)
        λ now u1 (clock, e1).
          Post-bind (λ _ u. u.db ≡ db) _ _ _ u1
            (Post-reads db u1 (e1 ∙ e) (Keeps-sign_access_token env cfg c now))
            λ access u2 e2.
              Post-bind (λ _ u. u.db ≡ db) _ _ _ u2
                (Post-reads db u2 e2 (Keeps-or_err _ _ (Keeps-generate_random_token env _)))
                λ token u3 e3.
                  Post-bind (λ _ u. u.db ≡ db) _ _ _ u3 (Post-reads db u3 e3 (Keeps-new_uuid env))
                    λ id u4 e4.
                      Post-bind _ _ _ _ u4 (create_refresh_token-Post env _ u4 db e4)
                        λ _ v (user, known, opened). (user, w.tick, known, cc (opened, clock))

  sign_in-IsOpening :
      (raw password : String) (w : World)
      → Post (IsOpening w.db) (sign_in env (repo env) cfg raw password w)
  unfolding sign_in
  sign_in-IsOpening raw password w =
      Post-bind (λ _ u. u.db ≡ w.db) _ _ _ w (Post-fail_if _ _ _ w λ _. refl)
        λ _ w1 e1.
          Post-bind (λ _ u. u.db ≡ w.db) _ _ _ w1
            (Post-or_err (λ _ u. u.db ≡ w.db) _ _ w1
              (get_by_identifier-reads env (trim_space raw) w1 w.db e1))
            λ c w2 e2.
              Post-bind (λ _ u. u.db ≡ w.db) _ _ _ w2 (Post-fail_if _ _ _ w2 λ _. e2)
                λ _ w3 e3.
                  Post-bind (λ _ u. u.db ≡ w.db) _ _ _ w3 (Post-fail_if _ _ _ w3 λ _. e3)
                    λ _ w4 e4. issue_tokens-IsOpening c w4 w.db e4

  -- A SignIn that succeeds opens one session, under the hash of the refresh token that it returns, for
  -- the user of the pair as PostgreSQL reads it, to end after the configured time from a reading of
  -- the clock. Every other session stays.
  pub sign_in_opens :
      (raw password : String) (w v : World) (pair : TokenPair)
      → sign_in env (repo env) cfg raw password w ≡ (ok pair, v)
      → IsOpening w.db pair v
  sign_in_opens raw password w v pair e =
      Post-eq-ok (IsOpening w.db) _ (sign_in-IsOpening raw password w) e
