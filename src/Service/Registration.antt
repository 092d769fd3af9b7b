-- ===== src/Service/Registration.antt =====
-- VerifyRegistrationEmail over the PostgreSQL repository.
use ofm_auth_service.Prelude.{
  String, Bool, true, false, Option, none, some, List, [], ◌∷◌, ◌≡◌, refl, sym, ◌∙◌, ap, subst,
  arith, exists_row, update_rows, if◌then◌else◌, if-eq, inl, inr,
}
use ofm_auth_service.Prelude.Int.{leb_ℤ}
use ofm_auth_service.Prelude.Text.{trim_space}
use ofm_auth_service.Config.{JwtConfig}
use ofm_auth_service.Domain.{Time, RegistrationEmailVerificationResult, Err}
use ofm_auth_service.Db.{
  CredentialRow, VerificationCodeRow, Db, DbError, Moment, answer, refuse, Statement, no_rows,
  with_uuid, invalid_uuid,
}
use ofm_auth_service.Db.Statements.{
  is_open_code, mark_used, verify_registration_email_query, verify_user,
}
use ofm_auth_service.Db.Tokens.{first_row-eq-answer}
use ofm_auth_service.Action.{
  Env, World, ok, pure, ◌>>=◌, execute, now_utc, fail_if, Action, advance,
}
use ofm_auth_service.Action.Post.{
  Post, Post-bind, Post-of-eq, Post-eq-ok, Post-fail_if, Post-execute,
}
use ofm_auth_service.Action.Refuses.{Refuses, Refuses-first}
use ofm_auth_service.Repository
use ofm_auth_service.Repository.{repo, map_credential_row_to_domain}
use ofm_auth_service.Repository.Rotation.{db-attach_roles}
use ofm_auth_service.Service.{verify_registration_email, hash_verification_code}

-- No open code of the user has this hash, at the given time or later.
abbrev pub IsSpentFrom : Env → String → String → Time → Db → Type 0
IsSpentFrom env user_id hash now db =
    (user : String) (later : Time)
    → env.pg.uuid_in user_id ≡ some user
    → leb_ℤ (env.pg.timestamptz now) (env.pg.timestamptz later) ≡ true
    → exists_row (is_open_code env.pg user hash later) db.email_verification_codes ≡ false

update-spends :
    (p q : VerificationCodeRow → Bool) (f : VerificationCodeRow → VerificationCodeRow)
    (cs : List VerificationCodeRow)
    → ((c : VerificationCodeRow) → q (f c) ≡ false)
    → ((c : VerificationCodeRow) → p c ≡ false → q c ≡ false)
    → exists_row q (update_rows p f cs) ≡ false
unfolding exists_row update_rows
update-spends p q f [] h k = refl
update-spends p q f (c ∷ cs) h k = ground (arith, update-spends p q f cs h k, h c, k c)

module _ (env : Env) where
  codes-eq :
      (is_open : VerificationCodeRow → Bool) (user : String) (m : Moment) (db : Db)
      (row : CredentialRow) (db' : Db)
      → verify_user is_open user m db ≡ answer row db'
      → db'.email_verification_codes
        ≡ update_rows is_open (mark_used m.now) db.email_verification_codes
  unfolding verify_user
  codes-eq is_open user m db row db' e =
      ap (λ (d : Db). d.email_verification_codes) (first_row-eq-answer _ _ e).1

  -- A code that was open is used, and one that was not does not open later.
  spent_codes :
      (user hash : String) (now later at : Time) (cs : List VerificationCodeRow)
      → leb_ℤ (env.pg.timestamptz now) (env.pg.timestamptz later) ≡ true
      → exists_row
          (is_open_code env.pg user hash later)
          (update_rows (is_open_code env.pg user hash now) (mark_used at) cs)
        ≡ false
  spent_codes user hash now later at cs le =
      update-spends _ _ _ cs (λ c. ground arith) λ c closed. ground arith

  query-spends :
      (user_id hash : String) (now : Time) (m : Moment) (db : Db) (row : CredentialRow) (db' : Db)
      → verify_registration_email_query env.pg user_id hash now m db ≡ answer row db'
      → IsSpentFrom env user_id hash now db'
  unfolding verify_registration_email_query
  query-spends user_id hash now m db row db' e user later written le =
      let open_now = is_open_code env.pg user hash now in
      let known =
        subst
          (λ o.
            with_uuid o (λ user.
              if exists_row (is_open_code env.pg user hash now) db.email_verification_codes
              then verify_user (is_open_code env.pg user hash now) user m db
              else refuse no_rows)
            ≡ answer row db')
          written e in
      elim (if-eq (exists_row open_now db.email_verification_codes) (verify_user open_now user m db)
        (refuse no_rows) known) [
          | inl (_, done) ↦
              ap (exists_row (is_open_code env.pg user hash later))
                (codes-eq open_now user m db row db' done)
              ∙ spent_codes user hash now later m.now db.email_verification_codes le
          | inr (_, none_open) ↦ absurd (cc none_open)
        ]

  query-refuses :
      (user_id hash : String) (now later : Time) (m : Moment) (db : Db)
      → IsSpentFrom env user_id hash now db
      → leb_ℤ (env.pg.timestamptz now) (env.pg.timestamptz later) ≡ true
      → (e : DbError) × (verify_registration_email_query env.pg user_id hash later m db ≡ refuse e)
  unfolding verify_registration_email_query
  query-refuses user_id hash now later m db spent le = refused (env.pg.uuid_in user_id) refl
    where
      refused :
          (o : Option String)
          → env.pg.uuid_in user_id ≡ o
          → (e : DbError) × (with_uuid o (λ user.
                if exists_row (is_open_code env.pg user hash later) db.email_verification_codes
                then verify_user (is_open_code env.pg user hash later) user m db
                else refuse no_rows)
              ≡ refuse e)
      refused none q = (invalid_uuid, refl)
      refused (some user) q = (no_rows, rw (spent user later q le) refl)

  execute-Refuses :
      {A : Type 0} (translate : DbError → _) (s : Statement A) (w : World) (e : DbError)
      → s (env.moment w.tick) w.db ≡ refuse e
      → Refuses w.db (execute env translate s w)
  unfolding execute
  execute-Refuses translate s w e q = ground arith

  Refuses-fail_if :
      {A : Type 0} (b : Bool) (e : Err) (f : Unit → Action A) (w : World)
      → Refuses w.db (f tt w)
      → Refuses w.db ((fail_if b e >>= f) w)
  unfolding ◌>>=◌ fail_if
  Refuses-fail_if true e f w h = (refl, refl)
  Refuses-fail_if false e f w h = h

  repository-spends :
      (user_id hash : String) (now : Time) (u : World)
      → Post
          (λ _ v. IsSpentFrom env user_id hash now v.db)
          (Repository.verify_registration_email env user_id hash now u)
  unfolding Repository.verify_registration_email
  repository-spends user_id hash now u =
      Post-bind (λ _ v. IsSpentFrom env user_id hash now v.db) _ _ _ u
        (Post-execute (λ _ v. IsSpentFrom env user_id hash now v.db) env _ _ u
          (query-spends user_id hash now (env.moment u.tick) u.db))
        λ row v h.
          Post-of-eq (λ _ x. IsSpentFrom env user_id hash now x.db) _
            λ c x e.
              subst (IsSpentFrom env user_id hash now)
                (sym (db-attach_roles env (map_credential_row_to_domain row) v)
                  ∙ ap (λ r. r.1.db) e)
                h

  verify_registration_email-Refuses :
      (user_id hash : String) (now later : Time) (w : World)
      → IsSpentFrom env user_id hash now w.db
      → leb_ℤ (env.pg.timestamptz now) (env.pg.timestamptz later) ≡ true
      → Refuses w.db (Repository.verify_registration_email env user_id hash later w)
  unfolding Repository.verify_registration_email
  verify_registration_email-Refuses user_id hash now later w spent le =
      let (e, q) = query-refuses user_id hash now later (env.moment w.tick) w.db spent le in
      Refuses-first w.db _ _ w (execute-Refuses _ _ w e q)

  Refuses-now_utc :
      {A : Type 0} (f : Time → Action A) (w : World)
      → Refuses w.db (f (env.clock w.tick) (advance w))
      → Refuses w.db ((now_utc env >>= f) w)
  unfolding ◌>>=◌ now_utc
  Refuses-now_utc f w h = h

module _ (env : Env) (cfg : JwtConfig) where
  -- What the service asks the repository for.
  abbrev pub asked : String → String
  asked code = hash_verification_code env (trim_space code)

  verify-Post :
      (raw code : String) (w : World)
      → Post
          (λ _ v. IsSpentFrom env (trim_space raw) (asked code) (env.clock w.tick) v.db)
          (verify_registration_email env (repo env) cfg raw code w)
  unfolding verify_registration_email pure now_utc
  verify-Post raw code w =
      Post-bind (λ _ u. u ≡ w) _ _ _ w (Post-fail_if _ _ _ w λ _. refl)
        λ _ w1 e1.
          Post-bind (λ _ u. u ≡ w) _ _ _ w1 (Post-fail_if _ _ _ w1 λ _. e1)
            λ _ w2 e2.
              Post-bind (λ now _. now ≡ env.clock w.tick) _ _ _ w2
                (ap (λ (u : World). env.clock u.tick) e2)
                λ now w3 e3.
                  Post-bind
                    (λ _ v. IsSpentFrom env (trim_space raw) (asked code) (env.clock w.tick) v.db) _
                    _ _ w3
                    (subst
                      (λ t.
                        Post (λ _ v. IsSpentFrom env (trim_space raw) (asked code) t v.db)
                          (Repository.verify_registration_email env (trim_space raw) (asked code)
                            now w3))
                      e3 (repository-spends env (trim_space raw) (asked code) now w3))
                    λ c v h. h

  verify-refused :
      (raw code : String) (w : World) (now : Time)
      → IsSpentFrom env (trim_space raw) (asked code) now w.db
      → leb_ℤ (env.pg.timestamptz now) (env.pg.timestamptz (env.clock w.tick)) ≡ true
      → Refuses w.db (verify_registration_email env (repo env) cfg raw code w)
  unfolding verify_registration_email
  verify-refused raw code w now spent le = Refuses-fail_if env _ _ _ w (
      Refuses-fail_if env _ _ _ w (
        Refuses-now_utc env _ w (
          Refuses-first w.db _ _ (advance w) (
            verify_registration_email-Refuses env (trim_space raw) (asked code) now
              (env.clock w.tick) (advance w) spent le))))

  -- A verification code that VerifyRegistrationEmail has accepted for a user is not accepted for
  -- the user again on the tables that it leaves, whatever the environment answers, unless the
  -- clock goes back; and no table changes.
  pub verification_code_once :
      (raw code : String) (w v x : World) (r : RegistrationEmailVerificationResult)
      → verify_registration_email env (repo env) cfg raw code w ≡ (ok r, v)
      → x.db ≡ v.db
      → leb_ℤ (env.pg.timestamptz (env.clock w.tick)) (env.pg.timestamptz (env.clock x.tick)) ≡ true
      → Refuses x.db (verify_registration_email env (repo env) cfg raw code x)
  verification_code_once raw code w v x r e same le =
      verify-refused raw code x (env.clock w.tick)
        (subst (IsSpentFrom env (trim_space raw) (asked code) (env.clock w.tick)) (sym same) (
          Post-eq-ok
            (λ _ (u : World). IsSpentFrom env (trim_space raw) (asked code) (env.clock w.tick) u.db)
            _ (verify-Post raw code w) e))
        le
