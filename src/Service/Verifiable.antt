-- ===== src/Service/Verifiable.antt =====
-- VerifyRegistrationEmail with the code of CreatePendingRegistration, over the PostgreSQL
-- repository.
use ofm_auth_service.Prelude.{
  ℕ, String, Bool, true, some, List, [], ◌∷◌, ◌≡◌, refl, sym, ap, ◌∙◌, subst, arith, exists_row,
  select, update_rows, pick_row, All, eq_iff,
}
use ofm_auth_service.Prelude.Int.{◌+ℤ◌, ltb_ℤ}
use ofm_auth_service.Prelude.Rows.{
  exists_row-update_rows, exists_row-select_some, pick_row-some, pick_row-All, select-All,
}
use ofm_auth_service.Config.{JwtConfig}
use ofm_auth_service.Domain.{Time, Credential, PendingRegistrationResult}
use ofm_auth_service.Db.{Db, CredentialRow, Moment, answer}
use ofm_auth_service.Db.Statements.{
  is_user, verify_registration_email_query, verify_user, mark_verified, is_open_code,
  list_roles_by_user_id_query, mark_used,
}
use ofm_auth_service.Action.{
  Env, World, ok, pure, execute, ◌>>=◌, now_utc, advance, succeeded, with_db, Outcome, continue,
  err, panicked,
}
use ofm_auth_service.Action.Post.{Post-eq-ok}
use ofm_auth_service.Repository
use ofm_auth_service.Repository.{repo, attach_roles, map_credential_row_to_domain}
use ofm_auth_service.Service.{
  verify_registration_email, create_pending_registration, hash_verification_code, ten_minutes,
}
use ofm_auth_service.Action.Reaches.{IsSound}
use ofm_auth_service.Db.Invariant.{IsCanonical}
use ofm_auth_service.Service.Encoding.Bare.{IsTrimmed}
use ofm_auth_service.Service.Pending.{IsPendingUntil, IsVerifiable, pending-IsVerifiable}

module _ {A : Type 0} (p : A → Bool) (i : ℕ) where
  picked-satisfies :
      (xs : List A)
      → exists_row p xs ≡ true
      → All (λ x. p x ≡ true) xs
      → (y : A) × (pick_row i xs ≡ some y) × (p y ≡ true)
  unfolding exists_row
  picked-satisfies [] h k = absurd (cc h)
  picked-satisfies (x ∷ xs) h k =
      let (y, e) = pick_row-some i x xs in (y, e, pick_row-All (λ z. p z ≡ true) i (x ∷ xs) k e)

  picked-selected :
      (xs : List A)
      → exists_row p xs ≡ true
      → (y : A) × (pick_row i (select p xs) ≡ some y) × (p y ≡ true)
  picked-selected xs h =
      picked-satisfies (select p xs) (exists_row-select_some p p xs (λ x e. e) h) (select-All p xs)

succeeded-map :
    {A B : Type 0} (f : A → B) (r : Outcome A × World)
    → succeeded r.0 ≡ true
    → succeeded (let (o, w) = r in continue o (λ a. pure (f a)) w).0 ≡ true
unfolding pure
succeeded-map f (ok a, w) h = refl
succeeded-map f (err e, w) h = absurd (cc h)
succeeded-map f (panicked, w) h = absurd (cc h)

module _ (env : Env) where
  -- The statement answers for the user.
  query-answers :
      (user_id hash : String) (now end : Time) (m : Moment) (db : Db)
      → IsPendingUntil env user_id hash end db
      → ltb_ℤ (env.pg.timestamptz now) (env.pg.timestamptz end) ≡ true
      → (row : CredentialRow) × (db' : Db) × (verify_registration_email_query env.pg user_id hash
            now m db
          ≡ answer row db')
        × (env.pg.uuid_in user_id ≡ some row.user_id)
  unfolding verify_registration_email_query verify_user
  query-answers user_id hash now end m db (user, known, stored, open_until) early =
      let rows = update_rows (is_user user) (mark_verified m.now) db.auth_credentials in
      let there : exists_row (is_user user) rows ≡ true =
        exists_row-update_rows (is_user user) (is_user user) (mark_verified m.now)
          db.auth_credentials (λ x. refl)
        ∙ stored in
      let (row, picked, named) = picked-selected (is_user user) m.row rows there in
      (
        row,
        record db {
          email_verification_codes =
              update_rows (is_open_code env.pg user hash now) (mark_used m.now)
                db.email_verification_codes;
          auth_credentials = rows;
        },
        rw (known, open_until now early, picked) refl,
        known ∙ ap some (sym (ground (arith, eq_iff row.user_id user, named))),
      )

  roles-read :
      (c : Credential) (w : World)
      → IsSound env
      → env.pg.uuid_in c.user_id ≡ some c.user_id
      → succeeded (attach_roles env c w).0 ≡ true
  unfolding attach_roles execute ◌>>=◌ list_roles_by_user_id_query
  roles-read c w sound known = rw (sound w.tick, known) refl

  repository-verifies :
      (user_id hash : String) (now end : Time) (u : World)
      → IsSound env
      → IsCanonical env.pg
      → IsPendingUntil env user_id hash end u.db
      → ltb_ℤ (env.pg.timestamptz now) (env.pg.timestamptz end) ≡ true
      → succeeded (Repository.verify_registration_email env user_id hash now u).0 ≡ true
  unfolding Repository.verify_registration_email execute ◌>>=◌ map_credential_row_to_domain
  repository-verifies user_id hash now end u sound canonical pending early =
      let (row, db', q, known) =
        query-answers user_id hash now end (env.moment u.tick) u.db pending early in
      rw (sound u.tick, q)
        (roles-read (map_credential_row_to_domain row) (with_db db' (advance u)) sound
          (canonical user_id row.user_id known))

module _ (env : Env) (cfg : JwtConfig) where
  abbrev pub IsAccepted : String → String → World → Type 0
  IsAccepted user_id code v =
      (n : ℕ) × ((x : World)
        → x.db ≡ v.db
        → ltb_ℤ (env.pg.timestamptz (env.clock x.tick))
            (env.pg.timestamptz (env.clock n +ℤ ten_minutes))
          ≡ true
        → succeeded (verify_registration_email env (repo env) cfg user_id code x).0 ≡ true)

  service-verifies :
      (user_id code : String) (n : ℕ) (x : World)
      → IsSound env
      → IsCanonical env.pg
      → IsTrimmed user_id
      → IsTrimmed code
      → IsPendingUntil env user_id
          (hash_verification_code env code)
          (env.clock n +ℤ ten_minutes)
          x.db
      → ltb_ℤ
          (env.pg.timestamptz (env.clock x.tick))
          (env.pg.timestamptz (env.clock n +ℤ ten_minutes))
        ≡ true
      → succeeded (verify_registration_email env (repo env) cfg user_id code x).0 ≡ true
  unfolding verify_registration_email ◌>>=◌ now_utc
  service-verifies user_id code n x sound canonical (tu, eu) (tc, ec) pending early =
      let done =
        repository-verifies env user_id (hash_verification_code env code) (env.clock x.tick)
          (env.clock n +ℤ ten_minutes) (advance x) sound canonical pending early in
      rw (tu, tc, eu, ec)
        (succeeded-map _
          (Repository.verify_registration_email env user_id (hash_verification_code env code)
            (env.clock x.tick) (advance x))
          done)

  -- If no request to the database fails and PostgreSQL reads the identifiers that it writes, and if
  -- the user is not empty and has no blanks around it, then on the tables that a successful
  -- CreatePendingRegistration leaves, VerifyRegistrationEmail succeeds with the returned code, at any
  -- reading of the clock before the expiry that PostgreSQL stores for some reading of the clock plus
  -- ten minutes.
  pub pending_registration-IsAccepted :
      (user_id email username password_hash : String) (w v : World) (r : PendingRegistrationResult)
      → IsSound env
      → IsCanonical env.pg
      → IsTrimmed user_id
      → create_pending_registration env (repo env) cfg user_id email username password_hash w
        ≡ (ok r, v)
      → IsAccepted user_id r.verification_code v
  pending_registration-IsAccepted user_id email username password_hash w v r sound canonical tu e =
      let (n, tc, pending) : IsVerifiable env cfg user_id r v =
        Post-eq-ok (IsVerifiable env cfg user_id) _
          (pending-IsVerifiable env cfg user_id email username password_hash w) e in
      (
        n,
        λ x same early.
            service-verifies user_id r.verification_code n x sound canonical tu tc
              (subst
                (IsPendingUntil env user_id (hash_verification_code env r.verification_code)
                  (env.clock n +ℤ ten_minutes))
                (sym same) pending)
              early,
      )
