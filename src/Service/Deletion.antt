-- ===== src/Service/Deletion.antt =====
-- DeleteCredential over the PostgreSQL repository: what is gone and what stays.
use ofm_auth_service.Prelude.{
  ℕ, String, Bool, true, false, Option, none, some, List, [], ◌∷◌, ◌≡◌, ◌≢◌, refl, sym, ◌∙◌, ap,
  subst, arith, exists_row, select, length, eq_iff, ◌==ℕ◌,
}
use ofm_auth_service.Prelude.Text.{◌==◌, ◌!=◌}
use ofm_auth_service.Config.{JwtConfig}
use ofm_auth_service.Db.{
  CredentialRow, VerificationCodeRow, RefreshTokenRow, UserRoleRow, Db, Moment, answer, has_user,
  with_uuid,
}
use ofm_auth_service.Db.Statements.{delete_credential_by_user_id_query, is_user}
use ofm_auth_service.Action.{Env, World, ok}
use ofm_auth_service.Action.Inversion.{request-pure-eq-ok}
use ofm_auth_service.Action.Post.{
  Post, Post-bind, Post-of-eq, Post-eq-ok, Post-fail_if, Post-execute,
}
use ofm_auth_service.Repository
use ofm_auth_service.Repository.{repo}
use ofm_auth_service.Service.{delete_credential}

module _ {A : Type 0} (key : A → String) (user : String) where
  -- No row of the user is left, and every other user's rows are the ones that were there.
  abbrev pub IsCleared : List A → List A → Type 0
  IsCleared before after =
      (exists_row (λ x. key x == user) after ≡ false)
      × ((other : String)
          → other ≢ user
          → select (λ x. key x == other) after ≡ select (λ x. key x == other) before)

  none_left :
      (xs : List A) → exists_row (λ x. key x == user) (select (λ x. key x != user) xs) ≡ false
  unfolding exists_row select
  none_left [] = refl
  none_left (x ∷ xs) = ground (arith, none_left xs)

  others_stay :
      (xs : List A) (other : String)
      → other ≢ user
      → select (λ x. key x == other) (select (λ x. key x != user) xs)
        ≡ select (λ x. key x == other) xs
  unfolding select
  others_stay [] other ne = refl
  others_stay (x ∷ xs) other ne =
      ground (arith, others_stay xs other ne, eq_iff (key x) user, eq_iff (key x) other)

  pub select-IsCleared : (xs : List A) → IsCleared xs (select (λ x. key x != user) xs)
  select-IsCleared xs = (none_left xs, others_stay xs)

-- The tables of the credentials, the codes, the tokens and the roles.
pub record IsErased (user : String) (before after : Db) : Type 0 where
  pub credentials :
      IsCleared
        (λ (r : CredentialRow). r.user_id)
        user
        before.auth_credentials
        after.auth_credentials
  pub codes :
      IsCleared
        (λ (c : VerificationCodeRow). c.user_id)
        user
        before.email_verification_codes
        after.email_verification_codes
  pub tokens :
      IsCleared (λ (t : RefreshTokenRow). t.user_id) user before.refresh_tokens after.refresh_tokens
  pub roles :
      IsCleared (λ (r : UserRoleRow). r.user_id) user before.auth_user_roles after.auth_user_roles

some_selected :
    (p : CredentialRow → Bool) (rows : List CredentialRow)
    → (length (select p rows) ==ℕ 0) ≡ false
    → exists_row p rows ≡ true
unfolding select exists_row
some_selected p [] h = cc
some_selected p (r ∷ rows) h = ground (arith, some_selected p rows)

module _ (env : Env) where
  -- The statement's answer n counts the user's rows.
  abbrev IsDeleted : String → Db → ℕ → Db → Type 0
  IsDeleted user_id db n db' =
      (user : String) × (env.pg.uuid_in user_id ≡ some user)
      × (n ≡ length (select (is_user user) db.auth_credentials))
      × IsErased user db db'

  query-IsDeleted :
      (user_id : String) (m : Moment) (db : Db) (n : ℕ) (db' : Db)
      → delete_credential_by_user_id_query env.pg user_id m db ≡ answer n db'
      → IsDeleted user_id db n db'
  unfolding delete_credential_by_user_id_query
  query-IsDeleted user_id m db n db' e = split (env.pg.uuid_in user_id) refl e
    where
      erased : String → Db
      erased user = record {
        auth_credentials = select (λ r. r.user_id != user) db.auth_credentials;
        email_verification_codes = select (λ c. c.user_id != user) db.email_verification_codes;
        refresh_tokens = select (λ t. t.user_id != user) db.refresh_tokens;
        auth_user_roles = select (λ r. r.user_id != user) db.auth_user_roles;
      }

      split :
          (o : Option String)
          → env.pg.uuid_in user_id ≡ o
          → with_uuid o
              (λ user. answer (length (select (is_user user) db.auth_credentials)) (erased user))
            ≡ answer n db'
          → IsDeleted user_id db n db'
      split none q h = absurd (cc h)
      split (some user) q h = (
        user,
        q,
        ground arith,
        subst (IsErased user db) (ground arith) (record {
          credentials = select-IsCleared _ user _;
          codes = select-IsCleared _ user _;
          tokens = select-IsCleared _ user _;
          roles = select-IsCleared _ user _;
        }),
      )

  -- The user had a credential, and it is gone with all that refers to it.
  abbrev pub IsGone : String → Db → Db → Type 0
  IsGone user_id db db' =
      (user : String) × (env.pg.uuid_in user_id ≡ some user)
      × (has_user user db.auth_credentials ≡ true)
      × IsErased user db db'

  delete_by_user_id-Post :
      (user_id : String) (w : World)
      → Post (λ _ v. IsGone user_id w.db v.db) (Repository.delete_by_user_id env user_id w)
  unfolding Repository.delete_by_user_id
  delete_by_user_id-Post user_id w =
      Post-bind (λ n u. IsDeleted user_id w.db n u.db) _ _ _ w
        (Post-execute _ env _ _ w (query-IsDeleted user_id (env.moment w.tick) w.db))
        λ n u gone.
          Post-bind (λ k u'. IsDeleted user_id w.db k u'.db) _ _ _ u
            (Post-of-eq (λ k x. IsDeleted user_id w.db k x.db) _
              λ k x e.
                let (same, moved) = request-pure-eq-ok env _ n u e in
                subst (λ j. IsDeleted user_id w.db j x.db) same
                  (subst (λ y. IsDeleted user_id w.db n y.db) (sym moved) gone))
            λ k u' gone'. Post-fail_if _ _ _ u' λ some_rows.
              let (user, q, count, erased) = gone' in
              (user, q, some_selected _ _ (ap (λ j. j ==ℕ 0) (sym count) ∙ some_rows), erased)

  -- A DeleteCredential that succeeds had a credential to delete: no row of the user is left
  -- among the credentials, the verification codes, the refresh tokens and the roles, and every other
  -- user has the same rows there as before. The outbox is not one of these tables.
  pub delete_credential_erases :
      (cfg : JwtConfig) (user_id : String) (w v : World)
      → delete_credential env (repo env) cfg user_id w ≡ (ok tt, v)
      → IsGone user_id w.db v.db
  unfolding delete_credential
  delete_credential_erases cfg user_id w v e =
      Post-eq-ok (λ _ (u : World). IsGone user_id w.db u.db) _
        (Post-bind (λ _ u. u ≡ w) (λ _ u. IsGone user_id w.db u.db) _ _ w
          (Post-fail_if _ _ _ w λ _. refl)
          λ _ u same.
            subst
              (λ x.
                Post (λ _ y. IsGone user_id x.db y.db) (Repository.delete_by_user_id env user_id u))
              same (delete_by_user_id-Post user_id u))
        e
