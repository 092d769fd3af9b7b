-- ===== src/Service/Refinement.antt =====
-- Refresh, SignOut and SignIn over the PostgreSQL repository, on the map of sessions.
use ofm_auth_service.Prelude.{String, some, none, ◌≡◌, refl, ap, ◌∙◌}
use ofm_auth_service.Prelude.Int.{◌+ℤ◌}
use ofm_auth_service.Config.{JwtConfig}
use ofm_auth_service.Domain.{
  Time, Credential, TokenPair, RotateRefreshTokenParams, RevokeRefreshTokenParams,
}
use ofm_auth_service.Db.{RefreshTokenRow, Db}
use ofm_auth_service.Db.Invariant.{IsValid}
use ofm_auth_service.Db.Sessions.{sessions, update, IsOnly, renew, close, find_session-IsOnly}
use ofm_auth_service.Action.{Env, World, ok, pure, now_utc}
use ofm_auth_service.Action.Keeps.{Keeps-new_uuid, Keeps-or_err}
use ofm_auth_service.Action.Post.{Post, Post-bind, Post-of-eq, Post-eq-ok, Post-fail_if, Post-reads}
use ofm_auth_service.Repository.{repo, rotate_refresh_token, revoke_refresh_token}
use ofm_auth_service.Repository.Sessions.{
  IsReadBack, IsSession, rotated, rotate_refresh_token-IsSession, revoke_refresh_token-IsSession,
  IsLive,
}
use ofm_auth_service.Service.{refresh, sign_out, hash_verification_code, token_pair}
use ofm_auth_service.Service.Keeps.{Keeps-generate_random_token, Keeps-sign_access_token}
use ofm_auth_service.Service.Sessions.{presented}

module _ (env : Env) where
  -- The clock answers with its reading, and the tables stay.
  pub now_utc-Post :
      (w u : World)
      → u ≡ w
      → Post (λ now v. (now ≡ env.clock w.tick) × (v.db ≡ w.db)) (now_utc env u)
  unfolding now_utc
  now_utc-Post w u e = (ap (λ (x : World). env.clock x.tick) e, ap (λ (x : World). x.db) e)

  pub renew-live :
      (t : RefreshTokenRow) (hash new : String) (now until : Time) (db : Db)
      → IsOnly hash t db.refresh_tokens
      → IsLive env now t
      → renew now hash new until (sessions db)
        ≡ some (t.user_id, update (update (sessions db) hash none) new (some (t.user_id, until)))
  unfolding renew
  renew-live t hash new now until db only live =
      rw (find_session-IsOnly hash t db.refresh_tokens only live.0, live.1) refl

  close-live :
      (t : RefreshTokenRow) (hash : String) (now : Time) (db : Db)
      → IsOnly hash t db.refresh_tokens
      → IsLive env now t
      → close now hash (sessions db) ≡ some (update (sessions db) hash none)
  unfolding close
  close-live t hash now db only live =
      rw (find_session-IsOnly hash t db.refresh_tokens only live.0, live.1) refl

  -- What a rotation has to do, for the service.
  abbrev Renews : RotateRefreshTokenParams → Db → Credential → World → Type 0
  Renews p db c v =
      renew p.now p.current_token_hash p.new_token_hash (env.pg.timestamptz p.new_expires_at)
        (sessions db)
      ≡ some (c.user_id, sessions v.db)

  rotate-Renews :
      (p : RotateRefreshTokenParams) (t : RefreshTokenRow) (u : World) (db : Db)
      → u.db ≡ db
      → IsValid db
      → IsOnly p.current_token_hash t db.refresh_tokens
      → IsReadBack env.pg t
      → Post (Renews p db) (rotate_refresh_token env p u)
  rotate-Renews p t u db same valid only back = Post-of-eq (Renews p db) _ λ c v e.
      let (owner, live, s) : IsSession env p.now t (rotated env t p (sessions u.db)) c v =
        Post-eq-ok _ _
          (rotate_refresh_token-IsSession env p t u (rw same valid.unique_tokens) (rw same only)
            back)
          e in
      renew-live t p.current_token_hash p.new_token_hash p.now _ db only live ∙ cc (owner, s, same)

  revoke-Closes :
      (p : RevokeRefreshTokenParams) (t : RefreshTokenRow) (u : World) (db : Db)
      → u.db ≡ db
      → IsValid db
      → IsOnly p.current_token_hash t db.refresh_tokens
      → IsReadBack env.pg t
      → Post
          (λ _ v. close p.now p.current_token_hash (sessions db) ≡ some (sessions v.db))
          (revoke_refresh_token env p u)
  revoke-Closes p t u db same valid only back =
      Post-of-eq (λ _ v. close p.now p.current_token_hash (sessions db) ≡ some (sessions v.db)) _
        λ c v e.
          let (owner, live, s) : IsSession env p.now t
              (update (sessions u.db) p.current_token_hash none) c v =
            Post-eq-ok _ _
              (revoke_refresh_token-IsSession env p t u (rw same valid.unique_tokens) (rw same only)
                back)
              e in
          close-live t p.current_token_hash p.now db only live ∙ cc (s, same)

module _ (env : Env) (cfg : JwtConfig) (raw : String) (t : RefreshTokenRow) where
  -- The sessions behind a Refresh that began in w.
  abbrev pub IsRenewal : World → TokenPair → World → Type 0
  IsRenewal w pair v =
      renew (env.clock w.tick) (presented env raw) (hash_verification_code env pair.refresh_token)
        (env.pg.timestamptz (env.clock w.tick +ℤ cfg.refresh_token_ttl)) (sessions w.db)
      ≡ some (pair.user_id, sessions v.db)

  refresh-IsRenewal :
      (w : World)
      → IsValid w.db
      → IsOnly (presented env raw) t w.db.refresh_tokens
      → IsReadBack env.pg t
      → Post (IsRenewal w) (refresh env (repo env) cfg raw w)
  unfolding refresh token_pair pure
  refresh-IsRenewal w valid only back =
      Post-bind (λ _ u. u ≡ w) _ _ _ w (Post-fail_if _ _ _ w λ _. refl)
        λ _ u e.
          Post-bind (λ now u. (now ≡ env.clock w.tick) × (u.db ≡ w.db)) _ _ _ u
            (now_utc-Post env w u e)
            λ now u1 (clock, e1).
              Post-bind (λ _ u. u.db ≡ w.db) _ _ _ u1
                (Post-reads w.db u1 e1 (Keeps-or_err _ _ (Keeps-generate_random_token env _)))
                λ token u2 e2.
                  Post-bind (λ _ u. u.db ≡ w.db) _ _ _ u2
                    (Post-reads w.db u2 e2 (Keeps-new_uuid env))
                    λ id u3 e3.
                      Post-bind _ _ _ _ u3 (rotate-Renews env _ t u3 w.db e3 valid only back)
                        λ c u4 renewed.
                          Post-bind (λ _ v. v.db ≡ u4.db) _ _ _ u4
                            (Post-reads u4.db u4 refl (Keeps-sign_access_token env cfg c now))
                            λ access v same. cc (renewed, clock, same)

  -- In valid tables, let one token t have the presented token's hash, with identifiers that
  -- PostgreSQL reads back. A Refresh that succeeds does to the map of sessions what the specification
  -- renew does: the presented token had a session that was open at the clock's time, the tokens are
  -- for its user, it is closed, and a session of the same user that ends after the configured time is
  -- open under the new token's hash. Every other session stays.
  pub refresh_renews :
      (w v : World) (pair : TokenPair)
      → IsValid w.db
      → IsOnly (presented env raw) t w.db.refresh_tokens
      → IsReadBack env.pg t
      → refresh env (repo env) cfg raw w ≡ (ok pair, v)
      → IsRenewal w pair v
  refresh_renews w v pair valid only back done =
      Post-eq-ok (IsRenewal w) _ (refresh-IsRenewal w valid only back) done

  abbrev pub IsClosing : World → World → Type 0
  IsClosing w v =
      close (env.clock w.tick) (presented env raw) (sessions w.db) ≡ some (sessions v.db)

  sign_out-IsClosing :
      (w : World)
      → IsValid w.db
      → IsOnly (presented env raw) t w.db.refresh_tokens
      → IsReadBack env.pg t
      → Post (λ _ v. IsClosing w v) (sign_out env (repo env) cfg raw w)
  unfolding sign_out pure
  sign_out-IsClosing w valid only back =
      Post-bind (λ _ u. u ≡ w) _ _ _ w (Post-fail_if _ _ _ w λ _. refl)
        λ _ u e.
          Post-bind (λ now u. (now ≡ env.clock w.tick) × (u.db ≡ w.db)) _ _ _ u
            (now_utc-Post env w u e)
            λ now u1 (clock, e1).
              Post-bind _ _ _ _ u1 (revoke-Closes env _ t u1 w.db e1 valid only back)
                λ c u2 closed. cc (closed, clock)

  -- In valid tables, let one token t have the presented token's hash, with identifiers that
  -- PostgreSQL reads back. A SignOut that succeeds does to the map of sessions what the specification
  -- close does: the presented token had a session that was open at the clock's time, and it is closed.
  -- Every other session stays.
  pub sign_out_closes :
      (w v : World)
      → IsValid w.db
      → IsOnly (presented env raw) t w.db.refresh_tokens
      → IsReadBack env.pg t
      → sign_out env (repo env) cfg raw w ≡ (ok tt, v)
      → IsClosing w v
  sign_out_closes w v valid only back done =
      Post-eq-ok (λ _ v. IsClosing w v) _ (sign_out-IsClosing w valid only back) done
