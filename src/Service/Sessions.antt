-- ===== src/Service/Sessions.antt =====
-- Refresh and SignOut over the PostgreSQL repository, and what becomes of a used refresh token.
use ofm_auth_service.Prelude.{String, some, ◌≡◌, ◌≢◌, refl, sym, subst}
use ofm_auth_service.Prelude.Text.{trim_space}
use ofm_auth_service.Config.{JwtConfig}
use ofm_auth_service.Domain.{Credential, TokenPair}
use ofm_auth_service.Db.Tokens.{IsConsumed, IsNamedBy}
use ofm_auth_service.Action.{Env, World, ok, pure}
use ofm_auth_service.Action.Keeps.{Keeps-fail_if, Keeps-now_utc, Keeps-new_uuid, Keeps-or_err}
use ofm_auth_service.Action.Post.{Post, Post-bind, Post-of-eq, Post-eq-ok, Post-fail_if, Post-reads}
use ofm_auth_service.Action.Refuses.{Refuses, Refuses-bind, Refuses-first}
use ofm_auth_service.Repository.{repo}
use ofm_auth_service.Repository.Rotation.{
  rotate_refresh_token-Post, revoke_refresh_token-Post, rotate_refresh_token-refused,
  revoke_refresh_token-refused,
}
use ofm_auth_service.Service.{refresh, sign_out, hash_verification_code, token_pair}
use ofm_auth_service.Service.Keeps.{Keeps-generate_random_token, Keeps-sign_access_token}

-- The stored form of a presented refresh token.
abbrev pub presented : Env → String → String
presented env raw_token = hash_verification_code env (trim_space raw_token)

module _ (env : Env) (cfg : JwtConfig) where
  refresh-refused :
      (raw : String) (w : World)
      → IsConsumed (presented env raw) w.db
      → Refuses w.db (refresh env (repo env) cfg raw w)
  unfolding refresh
  refresh-refused raw w c =
      Refuses-bind w.db _ _ w ((Keeps-fail_if {P = λ d. d ≡ w.db} _ _).at w refl) λ _ u e.
        Refuses-bind w.db _ _ u ((Keeps-now_utc {P = λ d. d ≡ w.db} env).at u e) λ now u1 e1.
          Refuses-bind w.db _ _ u1
            ((Keeps-or_err {P = λ d. d ≡ w.db} _ _ (Keeps-generate_random_token env _)).at u1 e1)
            λ token u2 e2.
              Refuses-bind w.db _ _ u2 ((Keeps-new_uuid {P = λ d. d ≡ w.db} env).at u2 e2)
                λ id u3 e3.
                  Refuses-first w.db _ _ u3 (rotate_refresh_token-refused env _ u3 w.db e3 c)

  sign_out-refused :
      (raw : String) (w : World)
      → IsConsumed (presented env raw) w.db
      → Refuses w.db (sign_out env (repo env) cfg raw w)
  unfolding sign_out
  sign_out-refused raw w c =
      Refuses-bind w.db _ _ w ((Keeps-fail_if {P = λ d. d ≡ w.db} _ _).at w refl) λ _ u e.
        Refuses-bind w.db _ _ u ((Keeps-now_utc {P = λ d. d ≡ w.db} env).at u e)
          λ now u1 e1. Refuses-first w.db _ _ u1 (revoke_refresh_token-refused env _ u1 w.db e1 c)

  -- The presented token is used up, if the new one hashes to another value.
  abbrev pub SpentBy : String → String → World → Type 0
  SpentBy token raw v =
      hash_verification_code env token ≢ presented env raw → IsConsumed (presented env raw) v.db

  -- Until the rotation no table changes; behind it only the access token is signed.
  refresh-Post :
      (raw id : String) (w : World)
      → env.pg.uuid_in id ≡ some id
      → IsNamedBy (presented env raw) id w.db
      → Post
          (λ pair v.
            hash_verification_code env pair.refresh_token ≢ presented env raw
            → IsConsumed (presented env raw) v.db)
          (refresh env (repo env) cfg raw w)
  unfolding refresh token_pair pure
  refresh-Post raw id w written n =
      Post-bind (λ _ u. u.db ≡ w.db) _ _ _ w (Post-fail_if _ _ _ w λ _. refl)
        λ _ u e.
          Post-bind (λ _ u. u.db ≡ w.db) _ _ _ u (Post-reads w.db u e (Keeps-now_utc env))
            λ now u1 e1.
              Post-bind (λ _ u. u.db ≡ w.db) _ _ _ u1
                (Post-reads w.db u1 e1 (Keeps-or_err _ _ (Keeps-generate_random_token env _)))
                λ token u2 e2.
                  Post-bind (λ _ u. u.db ≡ w.db) _ _ _ u2
                    (Post-reads w.db u2 e2 (Keeps-new_uuid env))
                    λ new_id u3 e3.
                      Post-bind (λ _ u. SpentBy token raw u) _ _ _ u3
                        (Post-of-eq {A = Credential} (λ _ u. SpentBy token raw u) _
                          λ c u4 q ne.
                            Post-eq-ok (λ _ v. IsConsumed (presented env raw) v.db) _
                              (rotate_refresh_token-Post env _ id u3 written
                                (subst (IsNamedBy (presented env raw) id) (sym e3) n) ne)
                              q)
                        λ c u4 h4.
                          Post-bind (λ _ u. SpentBy token raw u) _ _ _ u4
                            (Post-of-eq {A = String} (λ _ u. SpentBy token raw u) _
                              λ access v q ne.
                                subst (IsConsumed (presented env raw))
                                  (sym (
                                    Post-eq-ok (λ _ x. x.db ≡ u4.db) _
                                      (Post-reads u4.db u4 refl
                                        (Keeps-sign_access_token env cfg c now))
                                      q))
                                  (h4 ne))
                            λ access v h5. h5

  sign_out-Post :
      (raw id : String) (w : World)
      → env.pg.uuid_in id ≡ some id
      → IsNamedBy (presented env raw) id w.db
      → Post (λ _ v. IsConsumed (presented env raw) v.db) (sign_out env (repo env) cfg raw w)
  unfolding sign_out pure
  sign_out-Post raw id w written n =
      Post-bind (λ _ u. u.db ≡ w.db) _ _ _ w (Post-fail_if _ _ _ w λ _. refl)
        λ _ u e.
          Post-bind (λ _ u. u.db ≡ w.db) _ _ _ u (Post-reads w.db u e (Keeps-now_utc env))
            λ now u1 e1.
              Post-bind (λ _ u. IsConsumed (presented env raw) u.db) _ _ _ u1
                (revoke_refresh_token-Post env _ id u1 written
                  (subst (IsNamedBy (presented env raw) id) (sym e1) n))
                λ c u2 h. h

  -- Neither call accepts the token, and neither changes a table.
  abbrev pub IsRefused : String → World → Type 0
  IsRefused raw x =
      Refuses x.db (refresh env (repo env) cfg raw x)
      × Refuses x.db (sign_out env (repo env) cfg raw x)

  -- A refresh token whose hash names one stored token is used up by a Refresh that succeeds, if
  -- the new token hashes to another value: from the tables that it leaves, at any later time and
  -- whatever the environment answers, neither Refresh nor SignOut accepts the old token again, and
  -- neither changes a table.
  pub refresh_once :
      (raw id : String) (w : World) (pair : TokenPair) (v x : World)
      → env.pg.uuid_in id ≡ some id
      → IsNamedBy (presented env raw) id w.db
      → refresh env (repo env) cfg raw w ≡ (ok pair, v)
      → hash_verification_code env pair.refresh_token ≢ presented env raw
      → x.db ≡ v.db
      → IsRefused raw x
  refresh_once raw id w pair v x written n done ne same =
      let c = subst (IsConsumed (presented env raw)) (sym same) (
        Post-eq-ok
          (λ (p : TokenPair) (u : World).
            hash_verification_code env p.refresh_token ≢ presented env raw
            → IsConsumed (presented env raw) u.db)
          _ (refresh-Post raw id w written n) done ne) in
      (refresh-refused raw x c, sign_out-refused raw x c)

  -- A refresh token whose hash names one stored token is used up by a SignOut that succeeds: from
  -- the tables that it leaves, at any later time and whatever the environment answers, neither
  -- Refresh nor SignOut accepts the token again, and neither changes a table.
  pub sign_out_ends_session :
      (raw id : String) (w v x : World)
      → env.pg.uuid_in id ≡ some id
      → IsNamedBy (presented env raw) id w.db
      → sign_out env (repo env) cfg raw w ≡ (ok tt, v)
      → x.db ≡ v.db
      → IsRefused raw x
  sign_out_ends_session raw id w v x written n done same =
      let c = subst (IsConsumed (presented env raw)) (sym same) (
        Post-eq-ok (λ _ (u : World). IsConsumed (presented env raw) u.db) _
          (sign_out-Post raw id w written n) done) in
      (refresh-refused raw x c, sign_out-refused raw x c)
