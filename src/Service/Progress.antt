-- ===== src/Service/Progress.antt =====
-- SignOut and Refresh over the PostgreSQL repository, with a token that is open.
use ofm_auth_service.Prelude.{ℕ, String, true, false, ◌≡◌, refl, some, ap, subst, All}
use ofm_auth_service.Prelude.Int.{ℤ}
use ofm_auth_service.Prelude.Rows.{All-select}
use ofm_auth_service.Prelude.Text.{◌==◌, trim_space}
use ofm_auth_service.Config.{JwtConfig}
use ofm_auth_service.Domain.{Credential, Err, Time, TokenPair}
use ofm_auth_service.Db.{RefreshTokenRow, has_user}
use ofm_auth_service.Db.Statements.{has_hash}
use ofm_auth_service.Db.Invariant.{IsValid, IsOwned}
use ofm_auth_service.Db.Sessions.{IsOnly}
use ofm_auth_service.Action.{
  Env, or_err, World, Claims, value, new_uuid, read_random, ok, pure, ◌>>=◌, now_utc, advance,
  fail_if,
}
use ofm_auth_service.Action.Reaches.{IsSound, Reaches, Reaches-bind}
use ofm_auth_service.Repository.{repo}
use ofm_auth_service.Repository.Sessions.{IsReadBack, IsLive}
use ofm_auth_service.Repository.Progress.{
  IsFresh, revoke_refresh_token-Reaches, rotate_refresh_token-Reaches,
}
use ofm_auth_service.Service.{
  sign_out, refresh, signed, token_length, generate_random_token, sign_access_token,
}
use ofm_auth_service.Service.Encoding.{raw_url_encode, bytes}
use ofm_auth_service.Service.Sessions.{presented}
use ofm_auth_service.Service.Refinement.{IsClosing, sign_out_closes, IsRenewal, refresh_renews}

module _ (env : Env) (cfg : JwtConfig) where
  -- The random source answers, every new identifier is one that PostgreSQL reads and that no token
  -- has, and the signer signs.
  abbrev pub IsServed : World → Type 0
  IsServed w =
      ((n : ℕ) → (f : ℕ → ℕ) × (env.random n ≡ some f))
      × ((n : ℕ) → (id : String) × (env.uuid n ≡ some id) × IsFresh env id w.db)
      × ((c : Claims) → (text : String) × (env.sign cfg.access_secret c ≡ value text))

module _ (env : Env) (cfg : JwtConfig) (raw : String) (t : RefreshTokenRow) where
  only-IsOwned :
      (w : World)
      → IsValid w.db
      → IsOnly (presented env raw) t w.db.refresh_tokens
      → has_user t.user_id w.db.auth_credentials ≡ true
  only-IsOwned w valid only =
      (subst (All λ x. IsOwned w.db.auth_credentials x.user_id) only (
        All-select (λ x. IsOwned w.db.auth_credentials x.user_id) (has_hash (presented env raw))
          w.db.refresh_tokens valid.owned_tokens)).0

  sign_out-Reaches :
      (w : World)
      → IsSound env
      → IsValid w.db
      → IsOnly (presented env raw) t w.db.refresh_tokens
      → IsReadBack env.pg t
      → (trim_space raw == "") ≡ false
      → IsLive env (env.clock w.tick) t
      → Reaches (λ _ _. Unit) (sign_out env (repo env) cfg raw w)
  unfolding sign_out now_utc pure ◌>>=◌
  sign_out-Reaches w sound valid only back given live =
      let (c, v, done, _) =
        revoke_refresh_token-Reaches env t sound
          (record { current_token_hash = presented env raw; now = env.clock w.tick }) (advance w)
          only (only-IsOwned w valid only) live back in
      (tt, v, rw (given, done) refl, tt)

  -- If no request to the database fails, then in valid tables a SignOut with a token that is not blank
  -- succeeds, when one token t has the presented token's hash, with identifiers that PostgreSQL reads
  -- back, and t is neither revoked nor expired at the clock's time. It does to the map of sessions
  -- what the specification close does.
  pub open_session_closes :
      (w : World)
      → IsSound env
      → IsValid w.db
      → IsOnly (presented env raw) t w.db.refresh_tokens
      → IsReadBack env.pg t
      → (trim_space raw == "") ≡ false
      → IsLive env (env.clock w.tick) t
      → (v : World) × (sign_out env (repo env) cfg raw w ≡ (ok tt, v)) × IsClosing env cfg raw t w v
  open_session_closes w sound valid only back given live =
      let (_, v, done, _) = sign_out-Reaches w sound valid only back given live in
      (v, done, sign_out_closes env cfg raw t w v valid only back done)

  access-Reaches :
      (c : Credential) (now : Time) (w u : World)
      → IsServed env cfg w
      → Reaches (λ _ _. Unit) (sign_access_token env cfg c now u)
  unfolding sign_access_token pure
  access-Reaches c now w u (_, _, signs) =
      let (text, e) = signs _ in (text, u, ap (λ r. signed env r u) e, tt)

  given_passes :
      (e : Err) (w : World)
      → (trim_space raw == "") ≡ false
      → Reaches (λ _ u. u ≡ w) (fail_if (trim_space raw == "") e w)
  unfolding fail_if
  given_passes e w given = rw given (tt, w, refl, refl)

  token-Reaches :
      (n : ℤ) (e : Err) (w u : World)
      → IsServed env cfg w
      → u.db ≡ w.db
      → Reaches (λ _ v. v.db ≡ w.db) (or_err (generate_random_token env n) e u)
  unfolding generate_random_token read_random pure ◌>>=◌
  token-Reaches n e w u (draws, _, _) same =
      let (f, drawn) = draws u.tick in
      (raw_url_encode (bytes (token_length n) f), advance u, rw drawn refl, same)

  uuid-Reaches :
      (w u : World)
      → IsServed env cfg w
      → u.db ≡ w.db
      → Reaches (λ id v. IsFresh env id w.db × (v.db ≡ w.db)) (new_uuid env u)
  unfolding new_uuid
  uuid-Reaches w u (_, names, _) same =
      let (id, named, fresh) = names u.tick in
      (id, advance u, rw (new_uuid, named) refl, (fresh, same))

  refresh-Reaches :
      (w : World)
      → IsSound env
      → IsServed env cfg w
      → IsValid w.db
      → IsOnly (presented env raw) t w.db.refresh_tokens
      → IsReadBack env.pg t
      → (trim_space raw == "") ≡ false
      → IsLive env (env.clock w.tick) t
      → Reaches (λ _ _. Unit) (refresh env (repo env) cfg raw w)
  unfolding refresh now_utc pure
  refresh-Reaches w sound served valid only back given live =
      Reaches-bind (λ _ u. u ≡ w) _ _ _ w (given_passes _ w given)
        λ _ u e.
          Reaches-bind (λ now u. (now ≡ env.clock w.tick) × (u.db ≡ w.db)) _ _ _ u
            (
              env.clock u.tick,
              advance u,
              refl,
              (ap (λ (x : World). env.clock x.tick) e, ap (λ (x : World). x.db) e),
            )
            λ now u1 (clock, e1).
              Reaches-bind _ _ _ _ u1 (token-Reaches _ _ w u1 served e1) λ token u2 e2.
                Reaches-bind _ _ _ _ u2 (uuid-Reaches w u2 served e2) λ id u3 (fresh, e3).
                  Reaches-bind (λ _ _. Unit) _ _ _ u3
                    (rotate_refresh_token-Reaches env t sound _ u3 (rw e3 only)
                      (rw e3 (only-IsOwned w valid only)) (rw clock live) back (rw e3 fresh))
                    λ c u4 _.
                      Reaches-bind (λ _ _. Unit) _ _ _ u4 (access-Reaches c now w u4 served)
                        λ access v _. (_, _, refl, tt)

  -- If no request to the database fails, the random source answers, every new identifier is one that
  -- PostgreSQL reads and that no token has, and the signer signs, then in valid tables a Refresh with
  -- a token that is not blank succeeds, when one token t has the presented token's hash, with
  -- identifiers that PostgreSQL reads back, and t is neither revoked nor expired at the clock's time.
  -- It does to the map of sessions what the specification renew does.
  pub open_session_renews :
      (w : World)
      → IsSound env
      → IsServed env cfg w
      → IsValid w.db
      → IsOnly (presented env raw) t w.db.refresh_tokens
      → IsReadBack env.pg t
      → (trim_space raw == "") ≡ false
      → IsLive env (env.clock w.tick) t
      → (pair : TokenPair) × (v : World) × (refresh env (repo env) cfg raw w ≡ (ok pair, v))
        × IsRenewal env cfg raw t w pair v
  open_session_renews w sound served valid only back given live =
      let (pair, v, done, _) = refresh-Reaches w sound served valid only back given live in
      (pair, v, done, refresh_renews env cfg raw t w v pair valid only back done)
