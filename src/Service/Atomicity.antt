-- ===== src/Service/Atomicity.antt =====
-- Refresh over the PostgreSQL repository, however it ends: nothing of the rotation or all of it.
use ofm_auth_service.Prelude.{
  String, Option, some, ◌≡◌, arith, ◌⊎◌, inl, inr, refl, sym, ap, subst, ◌∙◌,
}
use ofm_auth_service.Prelude.Int.{◌+ℤ◌}
use ofm_auth_service.Config.{JwtConfig}
use ofm_auth_service.Domain.{Err, Credential, RotateRefreshTokenParams, TokenPair}
use ofm_auth_service.Db.{RefreshTokenRow, Db}
use ofm_auth_service.Db.Invariant.{IsValid}
use ofm_auth_service.Db.Sessions.{sessions, renew, IsOnly}
use ofm_auth_service.Action.{Env, World, Outcome, ok, err, panicked, pure, advance, transaction}
use ofm_auth_service.Repository.Translator.{translate_rotate_refresh_token_error}
use ofm_auth_service.Action.Keeps.{
  Keeps, StatementKeeps, Keeps-fail_if, Keeps-now_utc, Keeps-new_uuid, Keeps-or_err, keeps_rules,
}
use ofm_auth_service.Db.Statements.{list_roles_by_user_id_query}
use ofm_auth_service.Action.Post.{
  Post, Post-transaction, Post-eq-ok, Post-bind, Post-of-eq, Post-fail_if, Post-reads,
}
use ofm_auth_service.Action.Stops.{
  Stops, Stops-bind, Stops-transaction, Stops-reads, Stops-after-reads, Stops-mono,
}
use ofm_auth_service.Repository.{
  repo, rotate_refresh_token, rotate_body, attach_roles, list_roles_by_user_id,
}
use ofm_auth_service.Repository.Sessions.{IsReadBack, IsSession, rotated, rotate_body-IsSession}
use ofm_auth_service.Service.{refresh, hash_verification_code}
use ofm_auth_service.Service.Sessions.{presented}
use ofm_auth_service.Service.Refinement.{now_utc-Post, renew-live, refresh_renews}
use ofm_auth_service.Service.Keeps.{Keeps-generate_random_token, Keeps-sign_access_token}

module _ (env : Env) where
  roles-Keeps :
      (db : Db) (user : String)
      → StatementKeeps (λ d. d ≡ db) (list_roles_by_user_id_query env.pg user)
  unfolding list_roles_by_user_id_query
  roles-Keeps db user = record { at = λ m d h. ground (arith, h) }

  attach_roles-Keeps : (db : Db) (c : Credential) → Keeps (λ d. d ≡ db) (attach_roles env c)
  unfolding attach_roles list_roles_by_user_id
  attach_roles-Keeps db c = search (keeps_rules, roles-Keeps)

  -- The sessions are those that the specification renew makes of the ones before, for some user.
  abbrev IsRotated : RotateRefreshTokenParams → Db → Db → Type 0
  IsRotated p before after =
      (user : String) × (renew p.now p.current_token_hash p.new_token_hash
          (env.pg.timestamptz p.new_expires_at) (sessions before)
        ≡ some (user, sessions after))

  abbrev IsWhole : RotateRefreshTokenParams → Db → Option Err → Db → Type 0
  IsWhole p before o after = (after ≡ before) ⊎ IsRotated p before after

  rotate_body-IsRotated :
      (p : RotateRefreshTokenParams) (t : RefreshTokenRow) (u : World) (db : Db)
      → u.db ≡ db
      → IsValid db
      → IsOnly p.current_token_hash t db.refresh_tokens
      → IsReadBack env.pg t
      → Post (λ _ v. IsRotated p db v.db) (rotate_body env p u)
  rotate_body-IsRotated p t u db same valid only back =
      Post-of-eq (λ _ v. IsRotated p db v.db) _
        λ c v e.
          let (owner, live, s) : IsSession env p.now t (rotated env t p (sessions u.db)) c v =
            Post-eq-ok _ _
              (rotate_body-IsSession env p t u (rw same valid.unique_tokens) (rw same only) back)
              e in
          (
            t.user_id,
            renew-live env t p.current_token_hash p.new_token_hash p.now _ db only live
                ∙ cc (s, same),
          )

  rotate_refresh_token-IsWhole :
      (p : RotateRefreshTokenParams) (t : RefreshTokenRow) (u : World) (db : Db)
      → u.db ≡ db
      → IsValid db
      → IsOnly p.current_token_hash t db.refresh_tokens
      → IsReadBack env.pg t
      → Stops (IsWhole p db) (rotate_refresh_token env p u)
        × Post (λ _ v. IsRotated p db v.db) (rotate_refresh_token env p u)
  unfolding rotate_refresh_token
  rotate_refresh_token-IsWhole p t u db same valid only back =
      let body = rotate_body-IsRotated p t (advance u) db same valid only back in
      let through : Post (λ _ v. IsRotated p db v.db)
          (transaction env translate_rotate_refresh_token_error (rotate_body env p) u) =
        Post-transaction _ env _ _ u body in
      (
        Stops-bind (λ _ v. IsRotated p db v.db) (IsWhole p db) _ _ u through
            (Stops-transaction (IsWhole p db) env _ _ u (λ o. inl same)
              (Post-of-eq (λ _ v. (o : Option Err) → IsWhole p db o v.db) _
                λ c v e o. inr (Post-eq-ok (λ _ v. IsRotated p db v.db) _ body e)))
            λ c v r.
              Stops-reads (IsWhole p db) v.db _ v (λ o. inr r) refl (attach_roles-Keeps v.db c),
        Post-bind (λ _ v. IsRotated p db v.db) _ _ _ u through
            λ c v r. Post-of-eq _ _ λ c' x e.
              subst (IsRotated p db)
                (sym (
                  Post-eq-ok (λ _ y. y.db ≡ v.db) _
                    (Post-reads v.db v refl (attach_roles-Keeps v.db c)) e))
                r,
      )

module _ (env : Env) (cfg : JwtConfig) (raw : String) (t : RefreshTokenRow) where
  -- The sessions are those that renew makes of the ones before, with a new token of the same user.
  abbrev pub IsRenewed : World → Db → Type 0
  IsRenewed w after =
      (new user : String) × (renew (env.clock w.tick) (presented env raw) new
          (env.pg.timestamptz (env.clock w.tick +ℤ cfg.refresh_token_ttl)) (sessions w.db)
        ≡ some (user, sessions after))

  abbrev pub IsAtomic : World → Db → Type 0
  IsAtomic w after = (after ≡ w.db) ⊎ IsRenewed w after

  IsRotated-IsRenewed :
      (p : RotateRefreshTokenParams) (w : World) (after : Db)
      → p.now ≡ env.clock w.tick
      → p.current_token_hash ≡ presented env raw
      → p.new_expires_at ≡ p.now +ℤ cfg.refresh_token_ttl
      → IsRotated env p w.db after
      → IsRenewed w after
  IsRotated-IsRenewed p w after clock hash end (user, e) =
      (p.new_token_hash, user, cc (e, clock, hash, end))

  refresh-Stops :
      (w : World)
      → IsValid w.db
      → IsOnly (presented env raw) t w.db.refresh_tokens
      → IsReadBack env.pg t
      → Stops (λ _ d. IsAtomic w d) (refresh env (repo env) cfg raw w)
  unfolding refresh pure
  refresh-Stops w valid only back =
      let E = λ (o : Option Err) (d : Db). IsAtomic w d in
      Stops-bind (λ _ u. u ≡ w) E _ _ w (Post-fail_if _ _ _ w λ _. refl)
        (Stops-reads E w.db _ w (λ o. inl refl) refl (Keeps-fail_if _ _))
        λ _ u e.
          Stops-bind (λ now v. (now ≡ env.clock w.tick) × (v.db ≡ w.db)) E _ _ u
            (now_utc-Post env w u e)
            (Stops-reads E w.db _ u (λ o. inl refl) (ap (λ (x : World). x.db) e)
              (Keeps-now_utc env))
            λ now u1 (clock, e1).
              Stops-after-reads E w.db _ _ u1 (λ o. inl refl) e1
                (Keeps-or_err _ _ (Keeps-generate_random_token env _))
                λ token u2 e2.
                  Stops-after-reads E w.db _ _ u2 (λ o. inl refl) e2 (Keeps-new_uuid env)
                    λ id u3 e3.
                      let p : RotateRefreshTokenParams = record {
                        current_token_hash = presented env raw;
                        new_token_id = id;
                        new_token_hash = hash_verification_code env token;
                        new_expires_at = now +ℤ cfg.refresh_token_ttl;
                        now = now;
                      } in
                      let (stops, renewed) =
                        rotate_refresh_token-IsWhole env p t u3 w.db e3 valid only back in
                      let turn = λ (d : Db). IsRotated-IsRenewed p w d clock refl refl in
                      Stops-bind (λ _ v. IsRenewed w v.db) E _ _ u3
                        (Post-of-eq (λ _ v. IsRenewed w v.db) _
                          λ c v q.
                            turn v.db (Post-eq-ok (λ _ v. IsRotated env p w.db v.db) _ renewed q))
                        (Stops-mono (IsWhole env p w.db) E _
                          (λ o d h. elim h [ inl same ↦ inl same | inr r ↦ inr (turn d r) ]) stops)
                        λ c u4 r.
                          Stops-bind (λ _ _. Unit) E _ _ u4 (Post-of-eq _ _ λ _ _ _. tt)
                            (Stops-reads E u4.db _ u4 (λ o. inr r) refl
                              (Keeps-sign_access_token env cfg c now))
                            λ access v _. tt

  -- In valid tables, let one token t have the presented token's hash, with identifiers that
  -- PostgreSQL reads back. However a Refresh ends, with tokens, with an error or by a panic, and also
  -- where its Commit reports an error and has gone through: the tables are as before, or the sessions
  -- are those that the specification renew makes of the ones before, the old one closed and a new one
  -- of the same user open. Nothing in between is left.
  pub refresh-IsAtomic :
      (w v : World) (o : Outcome TokenPair)
      → IsValid w.db
      → IsOnly (presented env raw) t w.db.refresh_tokens
      → IsReadBack env.pg t
      → refresh env (repo env) cfg raw w ≡ (o, v)
      → IsAtomic w v.db
  refresh-IsAtomic w v (ok pair) valid only back e = inr (
    hash_verification_code env pair.refresh_token,
    pair.user_id,
    refresh_renews env cfg raw t w v pair valid only back e,
  )
  refresh-IsAtomic w v (err x) valid only back e =
      subst (Stops (λ _ d. IsAtomic w d)) e (refresh-Stops w valid only back)
  refresh-IsAtomic w v panicked valid only back e =
      subst (Stops (λ _ d. IsAtomic w d)) e (refresh-Stops w valid only back)
