-- ===== src/Db/Invariant.antt =====
-- Valid tables: keys and emails are unique, every code,
-- token and role has its user, and a credential is verified by its flag exactly when it is by its
-- status.
use ofm_auth_service.Prelude.{
  String, Bool, true, Option, none, some, List, [], ◌∷◌, ◌≡◌, ap, arith, exists_row, update_rows,
  select, All, eq_iff, ◌∙◌,
}
use ofm_auth_service.Prelude.Text.{◌==◌, ◌!=◌}
use ofm_auth_service.Prelude.Rows.{Unique, exists_row-update_rows, exists_row-select_some}
use ofm_auth_service.Domain.{status_email_verified}
use ofm_auth_service.Db.{
  CredentialRow, VerificationCodeRow, RefreshTokenRow, Db, Answer, with_uuid, first_row, has_user,
  Postgres,
}
use ofm_auth_service.Action.Keeps.{Ensures}

abbrev pub IsOwned : List CredentialRow → String → Type 0
IsOwned rows user = has_user user rows ≡ true

-- The flag and the status agree.
abbrev pub IsCoherent : CredentialRow → Type 0
IsCoherent r = r.email_verified ≡ (r.status == status_email_verified)

pub record IsValid (db : Db) : Type 0 where
  pub unique_users : Unique (λ (r : CredentialRow). r.user_id) db.auth_credentials
  pub unique_emails : Unique (λ (r : CredentialRow). r.email) db.auth_credentials
  pub unique_codes :
      Unique (λ (c : VerificationCodeRow). c.email_verification_code_id) db.email_verification_codes
  pub unique_tokens : Unique (λ (t : RefreshTokenRow). t.refresh_token_id) db.refresh_tokens
  pub owned_codes : All (λ c. IsOwned db.auth_credentials c.user_id) db.email_verification_codes
  pub owned_tokens : All (λ t. IsOwned db.auth_credentials t.user_id) db.refresh_tokens
  pub owned_roles : All (λ r. IsOwned db.auth_credentials r.user_id) db.auth_user_roles
  pub coherent : All IsCoherent db.auth_credentials

-- PostgreSQL reads the identifiers that it writes.
abbrev pub IsCanonical : Postgres → Type 0
IsCanonical pg = (s u : String) → pg.uuid_in s ≡ some u → pg.uuid_in u ≡ some u

abbrev pub no_tables : Db
no_tables = record {
  auth_credentials = [];
  email_verification_codes = [];
  refresh_tokens = [];
  auth_user_roles = [];
}

pub no_tables-IsValid : IsValid no_tables
no_tables-IsValid = ground arith

pub with_uuid-Ensures :
    {A : Type 0} (P : Db → Type 0) (o : Option String) (k : String → Answer A)
    → ((u : String) → Ensures P (k u))
    → Ensures P (with_uuid o k)
with_uuid-Ensures P none k h = tt
with_uuid-Ensures P (some u) k h = h u

pub first_row-Ensures :
    {A : Type 0} (P : Db → Type 0) (o : Option A) (db : Db) → P db → Ensures P (first_row o db)
first_row-Ensures P none db h = tt
first_row-Ensures P (some a) db h = h

pub IsOwned-cons :
    (r : CredentialRow) (rows : List CredentialRow) (u : String)
    → IsOwned rows u
    → IsOwned (r ∷ rows) u
unfolding exists_row
IsOwned-cons r rows u h = ground arith

-- An update that leaves the keys alone leaves the owners.
module _ (p : CredentialRow → Bool) (f : CredentialRow → CredentialRow) where
  pub IsOwned-update_rows :
      ((r : CredentialRow) → (f r).user_id ≡ r.user_id)
      → (rows : List CredentialRow) (u : String) → IsOwned rows u
      → IsOwned (update_rows p f rows) u
  IsOwned-update_rows k rows u h =
      exists_row-update_rows (λ r. r.user_id == u) p f rows (λ r. ap (λ s. s == u) (k r)) ∙ h

-- A user other than the deleted one is still there.
pub IsOwned-delete :
    (user : String) (rows : List CredentialRow) (u : String)
    → IsOwned rows u
    → (u != user) ≡ true
    → IsOwned (select (λ r. r.user_id != user) rows) u
IsOwned-delete user rows u h ne =
    exists_row-select_some (λ r. r.user_id == u) (λ r. r.user_id != user) rows
      (λ r e. ground (arith, eq_iff r.user_id u, eq_iff u user, eq_iff r.user_id user)) h

module _ {A : Type 0} (key : A → String) (user : String) (rows : List CredentialRow) where
  pub select-IsOwned :
      (xs : List A)
      → All (λ x. IsOwned rows (key x)) xs
      → All
          (λ x. IsOwned (select (λ r. r.user_id != user) rows) (key x))
          (select (λ x. key x != user) xs)
  unfolding select
  select-IsOwned [] h = tt
  select-IsOwned (x ∷ xs) h =
      ground (arith, select-IsOwned xs h.1, IsOwned-delete user rows (key x) h.0)
