-- ===== src/Service/Creation.antt =====
-- CreateCredential over the PostgreSQL repository, with the error of each refusal.
use ofm_auth_service.Prelude.{
  String, false, Option, none, some, List, ◌∷◌, ◌≡◌, refl, arith, if◌then◌else◌, exists_row, suc,
  Bool-cases, inl, inr,
}
use ofm_auth_service.Prelude.Text.{◌==◌, trim_space}
use ofm_auth_service.Config.{JwtConfig}
use ofm_auth_service.Domain.{
  Err, Credential, invalid_user_id, invalid_email, invalid_username, invalid_password_hash,
  auth_credentials_already_exist, email_already_taken, CreateCredentialParams,
}
use ofm_auth_service.Db.{CredentialRow, Db, has_user, has_email}
use ofm_auth_service.Db.Statements.{
  create_credential_query, new_credential, list_roles_by_user_id_query,
}
use ofm_auth_service.Db.Invariant.{IsCanonical}
use ofm_auth_service.Action.Reaches.{IsSound}
use ofm_auth_service.Action.{Env, World, Outcome, ok, err, execute, ◌>>=◌}
use ofm_auth_service.Repository
use ofm_auth_service.Repository.{repo, attach_roles, map_credential_row_to_domain}
use ofm_auth_service.Repository.Translator.{
  translate_create_credential_error, translate_unique_violation,
}
use ofm_auth_service.Service.{create_credential}

-- What the tables hold against a new credential.
unfoldable pub clash : Option String → String → List CredentialRow → Option Err
clash none email rows = some invalid_user_id
clash (some u) email rows =
    if has_user u rows
    then some auth_credentials_already_exist
    else if has_email email rows
    then some email_already_taken
    else none

-- The first reason to refuse the credential, in the order in which the reasons count.
unfoldable pub refusal :
    Option String → String → String → String → String → List CredentialRow → Option Err
refusal user user_id email username password_hash rows =
    if user_id == ""
    then some invalid_user_id
    else if trim_space email == ""
    then some invalid_email
    else if trim_space username == ""
    then some invalid_username
    else if trim_space password_hash == ""
    then some invalid_password_hash
    else clash user email rows

-- A credential that has yet to be verified.
abbrev pub IsPending : CredentialRow → CreateCredentialParams → Type 0
IsPending row p =
    (row.email ≡ p.email)
    × (row.username ≡ p.username)
    × (row.password_hash ≡ p.password_hash)
    × (row.email_verified ≡ false)
    × (row.status ≡ "pending_registration")

-- A refusal leaves the tables; otherwise one row is stored, of the user and with the given texts,
-- which has yet to be verified, and a credential of the same user, email and status is returned.
abbrev pub Settles :
    Option String → CreateCredentialParams → Option Err → Db → Outcome Credential × World → Type 0
Settles user p (some e) before (o, v) = (o ≡ err e) × (v.db ≡ before)
Settles user p none before (o, v) =
    (c : Credential) × (row : CredentialRow) × (o ≡ ok c)
    × (v.db ≡ record before { auth_credentials = row ∷ before.auth_credentials })
    × (user ≡ some row.user_id)
    × IsPending row p
    × (c.user_id ≡ row.user_id)
    × (c.email ≡ p.email)
    × (c.email_verified ≡ false)
    × (c.status ≡ "pending_registration")

module _ (env : Env) where
  repository-Settles :
      (user : Option String) (p : CreateCredentialParams) (w : World)
      → env.pg.uuid_in p.user_id ≡ user
      → IsCanonical env.pg
      → IsSound env
      → Settles user p (clash user p.email w.db.auth_credentials) w.db (Repository.create env p w)
  unfolding clash Repository.create attach_roles map_credential_row_to_domain
      create_credential_query new_credential list_roles_by_user_id_query exists_row execute ◌>>=◌
      translate_create_credential_error translate_unique_violation
  repository-Settles none p w known canonical sound = ground (arith, known, sound w.tick)
  repository-Settles (some u) p w known canonical sound =
      elim (Bool-cases (has_user u w.db.auth_credentials)) [
        | inl taken ↦ rw (known, sound w.tick, taken) (refl, refl)
        | inr fresh ↦ elim (Bool-cases (has_email p.email w.db.auth_credentials)) [
          | inl taken ↦ rw (known, sound w.tick, fresh, taken) (refl, refl)
          | inr unused ↦
              rw
                (
                  known,
                  sound w.tick,
                  fresh,
                  unused,
                  sound (suc w.tick),
                  canonical p.user_id u known,
                )
                (
                  _,
                  new_credential (env.moment w.tick).now u p,
                  refl,
                  refl,
                  refl,
                  (refl, refl, refl, refl, refl),
                  refl,
                  refl,
                  refl,
                  refl,
                )
        ]
      ]

module _ (env : Env) (cfg : JwtConfig) where
  -- If no request to the database fails and PostgreSQL reads the identifiers that it writes, then
  -- CreateCredential returns the error of the first reason to refuse: an empty user, a blank email,
  -- username or password hash, a user that is not a UUID, a user that has credentials, an email that
  -- is taken; it then leaves the tables. With no such reason it stores one row and changes nothing
  -- else: a row of the user with the given email, username and password hash, not verified and with
  -- the status of a pending registration; it returns a credential of that user, email and status.
  pub create_credential-Settles :
      (user_id email username password_hash : String) (w : World)
      → IsCanonical env.pg
      → IsSound env
      → Settles
          (env.pg.uuid_in user_id)
          (record {
            user_id = user_id;
            email = email;
            username = username;
            password_hash = password_hash;
          })
          (refusal
            (env.pg.uuid_in user_id)
            user_id
            email
            username
            password_hash
            w.db.auth_credentials)
          w.db
          (create_credential env (repo env) cfg user_id email username password_hash w)
  unfolding refusal create_credential ◌>>=◌
  create_credential-Settles user_id email username password_hash w canonical sound = ground (
    arith,
    repository-Settles env (env.pg.uuid_in user_id)
        (record {
          user_id = user_id;
          email = email;
          username = username;
          password_hash = password_hash;
        })
        w refl canonical sound,
  )
