-- ===== src/Db.antt =====
-- The tables of migration/postgres and the statements of
-- internal/infra/write/postgres/query.go, as functions of the tables. A statement runs whole or
-- reports an error and has no effect. Constraints that the schema declares are checked here; any
-- other failure comes from the environment (module Action).
pub mod Statements
pub mod Invariant
pub mod Tokens
pub mod Sessions
use ofm_auth_service.Prelude.{ℕ, String, Bool, Option, none, some, List, exists_row}
use ofm_auth_service.Prelude.Text.{◌==◌}
use ofm_auth_service.Domain.{Time}

-- model.CredentialRow, the row that a statement returns. `roles` is never scanned.
pub record CredentialRow : Type 0 where
  pub user_id : String
  pub email : String
  pub username : String
  pub password_hash : String
  pub email_verified : Bool
  pub status : String
  pub roles : List String
  pub created_at : Time
  pub updated_at : Time

-- model.VerificationCodeRow, with the column that may be NULL as an option.
pub record VerificationCodeRow : Type 0 where
  pub email_verification_code_id : String
  pub user_id : String
  pub token_hash : String
  pub expires_at : Time
  pub used_at : Option Time
  pub created_at : Time

pub record RefreshTokenRow : Type 0 where
  pub refresh_token_id : String
  pub user_id : String
  pub token_hash : String
  pub expires_at : Time
  pub revoked_at : Option Time
  pub created_at : Time

pub record UserRoleRow : Type 0 where
  pub user_id : String
  pub role : String

pub record Db : Type 0 where
  pub auth_credentials : List CredentialRow
  pub email_verification_codes : List VerificationCodeRow
  pub refresh_tokens : List RefreshTokenRow
  pub auth_user_roles : List UserRoleRow

-- The SQLSTATE codes that the program tells apart.
pub data PgCode : Type 0 where
  unique_violation invalid_text_representation foreign_key_violation other_code : PgCode

-- What the driver reports: sql.ErrNoRows, a *pgconn.PgError with its text, or anything else.
pub data DbError : Type 0 where
  no_rows : DbError
  pg_error : PgCode → String → String → DbError
  driver_error : String → DbError

-- What PostgreSQL does with values: the input of a UUID column, the precision of a timestamp
-- column, the order of texts in ORDER BY.
pub record Postgres : Type 0 where
  pub uuid_in : String → Option String
  pub timestamptz : Time → Time
  pub order_by : List String → List String

-- When a statement runs, NOW(), and which of several rows comes first where no order is asked.
pub record Moment : Type 0 where
  pub now : Time
  pub row : ℕ

pub data Answer (A : Type 0) : Type 0 where
  answer : A → Db → Answer A
  refuse : DbError → Answer A

abbrev pub Statement : Type 0 → Type 0
Statement A = Moment → Db → Answer A

abbrev pub invalid_uuid : DbError
invalid_uuid = pg_error invalid_text_representation "" "invalid input syntax for type uuid"

abbrev pub with_uuid : {A : Type 0} → Option String → (String → Answer A) → Answer A
with_uuid none k = refuse invalid_uuid
with_uuid (some u) k = k u

abbrev pub first_row : {A : Type 0} → Option A → Db → Answer A
first_row none db = refuse no_rows
first_row (some a) db = answer a db

abbrev pub has_user : String → List CredentialRow → Bool
has_user u = exists_row λ r. r.user_id == u

abbrev pub has_email : String → List CredentialRow → Bool
has_email e = exists_row λ r. r.email == e
