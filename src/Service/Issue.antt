-- ===== src/Service/Issue.antt =====
-- Who gets tokens from IssueRegistrationTokens over the PostgreSQL repository.
use ofm_auth_service.Prelude.{
  String, Bool, true, ◌&&◌, Option, none, some, ◌≡◌, refl, sym, subst, arith, exists_row, select,
  pick_row, eq_iff,
}
use ofm_auth_service.Prelude.Rows.{pick_row-All}
use ofm_auth_service.Prelude.Text.{◌==◌, trim_space}
use ofm_auth_service.Config.{JwtConfig}
use ofm_auth_service.Domain.{Credential, TokenPair, status_email_verified}
use ofm_auth_service.Db.{CredentialRow, Db, Moment, answer, with_uuid, first_row}
use ofm_auth_service.Db.Statements.{is_user, get_credential_by_user_id_query}
use ofm_auth_service.Db.Tokens.{first_row-eq-answer}
use ofm_auth_service.Action.{Env, World, ok, pure}
use ofm_auth_service.Action.Post.{
  Post, Post-bind, Post-of-eq, Post-eq-ok, Post-fail_if, Post-execute,
}
use ofm_auth_service.Repository.{repo, get_by_user_id, attach_roles, map_credential_row_to_domain}
use ofm_auth_service.Service.{issue_registration_tokens}
use ofm_auth_service.Service.SignIn.{selected-exists, issue_tokens-IsFor, IsFor, IsSignedFor}

-- The row that is given, and it is verified.
abbrev is_verified : String → CredentialRow → Bool
is_verified user r = r.email_verified && r.status == status_email_verified && r.user_id == user

module _ (env : Env) where
  -- The request names a user in PostgreSQL's form, and that user's row is verified and the one
  -- that the answer is for.
  abbrev pub IsVerifiedUser : String → Db → String → Type 0
  IsVerifiedUser raw db user =
      (u : String) × (env.pg.uuid_in (trim_space raw) ≡ some u)
      × (exists_row (λ r. is_user u r && is_verified user r) db.auth_credentials ≡ true)

  abbrev IsReady : String → Db → Credential → Type 0
  IsReady raw db c =
      c.email_verified ≡ true
      → (c.status == status_email_verified) ≡ true
      → IsVerifiedUser raw db c.user_id

  query-IsReady :
      (raw : String) (m : Moment) (db : Db) (row : CredentialRow) (db' : Db)
      → get_credential_by_user_id_query env.pg (trim_space raw) m db ≡ answer row db'
      → IsReady raw db (map_credential_row_to_domain row)
  unfolding get_credential_by_user_id_query map_credential_row_to_domain
  query-IsReady raw m db row db' e flag status = split (env.pg.uuid_in (trim_space raw)) refl e
    where
      split :
          (o : Option String)
          → env.pg.uuid_in (trim_space raw) ≡ o
          → with_uuid o
              (λ user. first_row (pick_row m.row (select (is_user user) db.auth_credentials)) db)
            ≡ answer row db'
          → IsVerifiedUser raw db row.user_id
      split none q h = absurd (cc h)
      split (some u) q h = (
        u,
        q,
        pick_row-All
            (λ r.
              is_verified row.user_id r ≡ true
              → exists_row (λ x. is_user u x && is_verified row.user_id x) db.auth_credentials
                ≡ true)
            m.row _ (selected-exists (is_user u) (is_verified row.user_id) db.auth_credentials)
            (first_row-eq-answer _ _ h).0 (ground (arith, eq_iff row.user_id row.user_id)),
      )

  get_by_user_id-Post :
      (raw : String) (w : World)
      → Post (λ c _. IsReady raw w.db c) (get_by_user_id env (trim_space raw) w)
  unfolding get_by_user_id attach_roles pure
  get_by_user_id-Post raw w =
      Post-bind (λ row _. IsReady raw w.db (map_credential_row_to_domain row)) _ _ _ w
        (Post-execute _ env _ _ w (query-IsReady raw (env.moment w.tick) w.db))
        λ row u h. Post-bind (λ _ _. Unit) _ _ _ u (Post-of-eq _ _ λ _ _ _. tt) λ roles v _. h

module _ (env : Env) (cfg : JwtConfig) where
  -- The user of the pair is the verified one, and its access token is signed for the user.
  abbrev pub IsIssued : String → Db → TokenPair → Type 0
  IsIssued raw db pair =
      IsVerifiedUser env raw db pair.user_id × IsSignedFor env cfg pair.user_id pair.access_token

  issue_registration_tokens-Post :
      (raw : String) (w : World)
      → Post (λ pair _. IsIssued raw w.db pair) (issue_registration_tokens env (repo env) cfg raw w)
  unfolding issue_registration_tokens
  issue_registration_tokens-Post raw w =
      Post-bind (λ _ u. u.db ≡ w.db) _ _ _ w (Post-fail_if _ _ _ w λ _. refl)
        λ _ w1 e1.
          Post-bind (λ c _. IsReady env raw w.db c) _ _ _ w1
            (subst (λ d. Post (λ c _. IsReady env raw d c) (get_by_user_id env (trim_space raw) w1))
              e1 (get_by_user_id-Post env raw w1))
            λ c w2 ready.
              Post-bind (λ _ _. c.email_verified ≡ true) _ _ _ w2
                (Post-fail_if _ _ _ w2 λ b. ground arith)
                λ _ w3 flag.
                  Post-bind (λ _ _. (c.status == status_email_verified) ≡ true) _ _ _ w3
                    (Post-fail_if _ _ _ w3 λ b. ground arith)
                    λ _ w4 status.
                      Post-of-eq (λ pair _. IsIssued raw w.db pair) _
                        λ pair v e.
                          let (same, for_user) =
                            Post-eq-ok (λ p _. IsFor env cfg c.user_id p) _
                              (issue_tokens-IsFor env cfg c w4) e in
                          (
                            subst (IsVerifiedUser env raw w.db) (sym same) (ready flag status),
                            subst (λ user. IsSignedFor env cfg user pair.access_token) (sym same)
                                for_user,
                          )

  -- If IssueRegistrationTokens succeeds, the trimmed request names a user in PostgreSQL's form whose
  -- stored row is verified by its flag and by its status; the pair is for that row's user, and its access
  -- token is signed with the secret for access tokens with that user as its subject.
  pub issue_registration_tokens-IsVerifiedUser :
      (raw : String) (w v : World) (pair : TokenPair)
      → issue_registration_tokens env (repo env) cfg raw w ≡ (ok pair, v)
      → IsIssued raw w.db pair
  issue_registration_tokens-IsVerifiedUser raw w v pair e =
      Post-eq-ok (λ p _. IsIssued raw w.db p) _ (issue_registration_tokens-Post raw w) e
