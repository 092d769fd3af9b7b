-- ===== src/Service/SignIn.antt =====
-- Who gets tokens from SignIn over the PostgreSQL repository.
use ofm_auth_service.Prelude.{
  String, Bool, true, false, ◌&&◌, some, List, [], ◌∷◌, ◌≡◌, refl, sym, subst, arith, exists_row,
  select, All, if◌then◌else◌, pick_row, eq_iff,
}
use ofm_auth_service.Prelude.Rows.{pick_row-All, All-mono}
use ofm_auth_service.Prelude.Text.{◌==◌, trim_space}
use ofm_auth_service.Config.{JwtConfig}
use ofm_auth_service.Domain.{Credential, Time, TokenPair, status_email_verified}
use ofm_auth_service.Db.{CredentialRow, Db, Moment, answer}
use ofm_auth_service.Db.Statements.{is_identified, get_credential_by_identifier_query}
use ofm_auth_service.Db.Tokens.{first_row-eq-answer}
use ofm_auth_service.Action.{Env, World, ok, pure, throw, Claims, Reply, value, failure}
use ofm_auth_service.Action.Post.{
  Post, Post-bind, Post-of-eq, Post-eq-ok, Post-or_err, Post-fail_if, Post-execute,
}
use ofm_auth_service.Repository.{repo, get_by_identifier, map_credential_row_to_domain}
use ofm_auth_service.Service.{sign_in, issue_tokens, token_pair, signed, sign_access_token}

-- The user's row, verified, with the password's hash.
abbrev is_accepted : Env → String → String → CredentialRow → Bool
is_accepted env password user r =
    r.email_verified
    && r.status == status_email_verified
    && env.bcrypt_matches r.password_hash password
    && r.user_id == user

-- The same, and the identifier is its username or its email.
abbrev pub is_entitled : Env → String → String → String → CredentialRow → Bool
is_entitled env identifier password user r =
    is_identified identifier r && is_accepted env password user r

pub selected-exists :
    (p q : CredentialRow → Bool) (rows : List CredentialRow)
    → All (λ r. q r ≡ true → exists_row (λ x. p x && q x) rows ≡ true) (select p rows)
unfolding select exists_row
selected-exists p q [] = tt
selected-exists p q (r ∷ rows) = step (p r) refl (
    All-mono {P = λ y. q y ≡ true → exists_row (λ x. p x && q x) rows ≡ true}
      {Q = λ y. q y ≡ true → exists_row (λ x. p x && q x) (r ∷ rows) ≡ true} (select p rows)
      (λ y h e. ground (arith, h e)) (selected-exists p q rows))
  where
    step :
        (b : Bool)
        → p r ≡ b
        → All (λ y. q y ≡ true → exists_row (λ x. p x && q x) (r ∷ rows) ≡ true) (select p rows)
        → All
            (λ y. q y ≡ true → exists_row (λ x. p x && q x) (r ∷ rows) ≡ true)
            (if b then r ∷ select p rows else select p rows)
    step true e rest = ((λ h. ground arith), rest)
    step false e rest = rest

found_row :
    (identifier : String) (db : Db) (at : Moment) (row : CredentialRow) (db' : Db)
    → get_credential_by_identifier_query identifier at db ≡ answer row db'
    → pick_row at.row (select (is_identified identifier) db.auth_credentials) ≡ some row
unfolding get_credential_by_identifier_query
found_row identifier db at row db' e = (first_row-eq-answer _ db e).0

module _ (env : Env) (cfg : JwtConfig) where
  -- The access token is signed with the secret for access tokens, and its subject is the user.
  abbrev pub IsSignedFor : String → String → Type 0
  IsSignedFor user token =
      (claims : Claims) × (env.sign cfg.access_secret claims ≡ value token)
      × (claims.subject ≡ user)

  signed-Post :
      (claims : Claims) (r : Reply String) (w : World)
      → env.sign cfg.access_secret claims ≡ r
      → Post (λ token _. IsSignedFor claims.subject token) (signed env r w)
  unfolding signed pure throw
  signed-Post claims (value token) w e = (claims, e, refl)
  signed-Post claims (failure text) w e = tt

  sign_access_token-Post :
      (c : Credential) (now : Time) (w : World)
      → Post (λ token _. IsSignedFor c.user_id token) (sign_access_token env cfg c now w)
  unfolding sign_access_token
  sign_access_token-Post c now w = signed-Post _ _ w refl

  -- The pair is for the user, and so is its access token.
  abbrev pub IsFor : String → TokenPair → Type 0
  IsFor user pair = (pair.user_id ≡ user) × IsSignedFor user pair.access_token

  pub issue_tokens-IsFor :
      (c : Credential) (w : World)
      → Post (λ pair _. IsFor c.user_id pair) (issue_tokens env (repo env) cfg c w)
  unfolding issue_tokens token_pair pure
  issue_tokens-IsFor c w =
      Post-bind (λ _ _. Unit) _ _ _ w (Post-of-eq _ _ λ _ _ _. tt)
        λ now w1 _.
          Post-bind (λ token _. IsSignedFor c.user_id token) _ _ _ w1
            (sign_access_token-Post c now w1)
            λ access w2 for_user.
              Post-bind (λ _ _. Unit) _ _ _ w2 (Post-of-eq _ _ λ _ _ _. tt)
                λ token w3 _.
                  Post-bind (λ _ _. Unit) _ _ _ w3 (Post-of-eq _ _ λ _ _ _. tt)
                    λ id w4 _.
                      Post-bind (λ _ _. Unit) _ _ _ w4 (Post-of-eq _ _ λ _ _ _. tt)
                        λ _ w5 _. (refl, for_user)

  -- What SignIn checks of the credential.
  abbrev passes : String → Credential → Bool
  passes password c =
      c.email_verified
      && c.status == status_email_verified
      && env.bcrypt_matches c.password_hash password

  get_by_identifier-Post :
      (identifier password : String) (w : World)
      → Post
          (λ c _.
            passes password c ≡ true
            → exists_row (is_entitled env identifier password c.user_id) w.db.auth_credentials
              ≡ true)
          (get_by_identifier env identifier w)
  unfolding get_by_identifier map_credential_row_to_domain pure
  get_by_identifier-Post identifier password w =
      Post-bind
        (λ row _.
          is_accepted env password row.user_id row ≡ true
          → exists_row (is_entitled env identifier password row.user_id) w.db.auth_credentials
            ≡ true)
        _ _ _ w (Post-execute _ env _ _ w λ row db e. found row db e)
        λ row u h k. h (ground (arith, eq_iff row.user_id row.user_id))
    where
      found :
          (row : CredentialRow) (db : Db)
          → get_credential_by_identifier_query identifier (env.moment w.tick) w.db ≡ answer row db
          → is_accepted env password row.user_id row ≡ true
          → exists_row (is_entitled env identifier password row.user_id) w.db.auth_credentials
            ≡ true
      found row db e =
          pick_row-All
            (λ r.
              is_accepted env password row.user_id r ≡ true
              → exists_row (is_entitled env identifier password row.user_id) w.db.auth_credentials
                ≡ true)
            (env.moment w.tick).row _
            (selected-exists (is_identified identifier) (is_accepted env password row.user_id)
              w.db.auth_credentials)
            (found_row identifier w.db (env.moment w.tick) row db e)

  abbrev pub IsEntitled : String → String → Db → TokenPair → Type 0
  IsEntitled raw password db pair =
      (exists_row (is_entitled env (trim_space raw) password pair.user_id) db.auth_credentials
        ≡ true)
      × IsSignedFor pair.user_id pair.access_token

  abbrev Found : String → String → Db → Credential → Type 0
  Found raw password db c =
      passes password c ≡ true
      → exists_row (is_entitled env (trim_space raw) password c.user_id) db.auth_credentials ≡ true

  sign_in-Post :
      (raw password : String) (w : World)
      → Post
          (λ pair _. IsEntitled raw password w.db pair)
          (sign_in env (repo env) cfg raw password w)
  unfolding sign_in
  sign_in-Post raw password w =
      Post-bind (λ _ u. u.db ≡ w.db) _ _ _ w (Post-fail_if _ _ _ w λ _. refl)
        λ _ w1 e1.
          Post-bind (λ c _. Found raw password w.db c) _ _ _ w1
            (Post-or_err (λ c _. Found raw password w.db c) _ _ w1
              (subst
                (λ d.
                  Post (λ c _. Found raw password d c) (get_by_identifier env (trim_space raw) w1))
                e1 (get_by_identifier-Post (trim_space raw) password w1)))
            λ c w2 found.
              Post-bind
                (λ _ _. (c.email_verified ≡ true) × ((c.status == status_email_verified) ≡ true)) _
                _ _ w2 (Post-fail_if _ _ _ w2 λ b. ground arith)
                λ _ w3 ready.
                  Post-bind (λ _ _. env.bcrypt_matches c.password_hash password ≡ true) _ _ _ w3
                    (Post-fail_if _ _ _ w3 λ b. ground arith)
                    λ _ w4 matched.
                      Post-of-eq (λ pair _. IsEntitled raw password w.db pair) _
                        λ pair v e.
                          let (same, for_user) =
                            Post-eq-ok (λ p _. IsFor c.user_id p) _ (issue_tokens-IsFor c w4) e in
                          (
                            subst
                                (λ user.
                                  exists_row (is_entitled env (trim_space raw) password user)
                                    w.db.auth_credentials
                                  ≡ true)
                                (sym same) (found (ground arith)),
                            subst (λ user. IsSignedFor user pair.access_token) (sym same) for_user,
                          )

  -- If SignIn succeeds, the pair and the subject of its access token, which is signed with the
  -- secret for access tokens, are a user whose stored row has the trimmed identifier as
  -- its username or email, is verified by its flag and by its status, and has a password hash that
  -- bcrypt matches with the password.
  pub sign_in-IsEntitled :
      (raw password : String) (w v : World) (pair : TokenPair)
      → sign_in env (repo env) cfg raw password w ≡ (ok pair, v)
      → IsEntitled raw password w.db pair
  sign_in-IsEntitled raw password w v pair e =
      Post-eq-ok (λ p _. IsEntitled raw password w.db p) _ (sign_in-Post raw password w) e
