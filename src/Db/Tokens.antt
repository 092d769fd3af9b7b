-- ===== src/Db/Tokens.antt =====
-- What the statements on refresh tokens find and leave.
use ofm_auth_service.Prelude.{
  String, Bool, true, false, Option, none, some, List, [], ◌∷◌, ◌++◌, map, ◌≡◌, refl, arith, ◌&&◌,
  is_none, exists_row, update_rows, select, All, eq_iff,
}
use ofm_auth_service.Prelude.Text.{◌==◌}
use ofm_auth_service.Prelude.Rows.{pick_row-All}
use ofm_auth_service.Domain.{Time}
use ofm_auth_service.Db.{
  CredentialRow, RefreshTokenRow, Db, Postgres, Moment, answer, first_row, with_uuid, Answer,
}
use ofm_auth_service.Db.Statements.{
  join_owners, has_hash, is_live_token, mark_revoked, refresh_token_for_rotation_query,
}

abbrev pub is_unrevoked : String → RefreshTokenRow → Bool
is_unrevoked hash t = t.token_hash == hash && is_none t.revoked_at

-- Every token with this hash has been revoked.
abbrev pub IsConsumed : String → Db → Type 0
IsConsumed hash db = exists_row (is_unrevoked hash) db.refresh_tokens ≡ false

-- The hash belongs to no token but the one with this identifier.
abbrev pub IsNamedBy : String → String → Db → Type 0
IsNamedBy hash id db = All (λ t. has_hash hash t ≡ true → t.refresh_token_id ≡ id) db.refresh_tokens

pub first_row-eq-answer :
    {A : Type 0} (o : Option A) (db : Db) {a : A} {db' : Db}
    → first_row o db ≡ answer a db'
    → (o ≡ some a) × (db' ≡ db)
first_row-eq-answer none db e = cc
first_row-eq-answer (some x) db e = ground arith

-- A statement that answered has read its identifier.
pub with_uuid-eq-answer :
    {A : Type 0} (o : Option String) (k : String → Answer A) {a : A} {db : Db}
    → with_uuid o k ≡ answer a db
    → (u : String) × (o ≡ some u) × (k u ≡ answer a db)
with_uuid-eq-answer none k e = absurd (cc e)
with_uuid-eq-answer (some u) k e = (u, refl, e)

module _ {κ} (P : RefreshTokenRow → Type κ) where
  pub All-append :
      (xs ys : List (RefreshTokenRow × CredentialRow))
      → All (λ p. P p.0) xs
      → All (λ p. P p.0) ys
      → All (λ p. P p.0) (xs ++ ys)
  All-append [] ys hx hy = hy
  All-append (x ∷ xs) ys hx hy = (hx.0, All-append xs ys hx.1 hy)

  All-map :
      (t : RefreshTokenRow) (rows : List CredentialRow)
      → P t
      → All (λ (p : RefreshTokenRow × CredentialRow). P p.0) (map (λ r. (t, r)) rows)
  All-map t [] h = tt
  All-map t (r ∷ rows) h = (h, All-map t rows h)

  pub All-join_owners :
      (ts : List RefreshTokenRow) (rows : List CredentialRow)
      → All P ts
      → All (λ p. P p.0) (join_owners ts rows)
  unfolding join_owners
  All-join_owners [] rows h = tt
  All-join_owners (t ∷ ts) rows h = All-append _ _ (All-map t _ h.0) (All-join_owners ts rows h.1)

  -- The token that the rotation query finds has what all tokens with the hash have.
  pub refresh_token_for_rotation_query-All :
      (hash : String) (m : Moment) (db : Db) {t : RefreshTokenRow} {r : CredentialRow} {db' : Db}
      → All P (select (has_hash hash) db.refresh_tokens)
      → refresh_token_for_rotation_query hash m db ≡ answer (t, r) db'
      → P t × (db' ≡ db)
  unfolding refresh_token_for_rotation_query
  refresh_token_for_rotation_query-All hash m db h e =
      let picked = first_row-eq-answer _ db e in
      (
        pick_row-All (λ p. P p.0) m.row _ (All-join_owners _ db.auth_credentials h) picked.0,
        picked.1,
      )

-- A token that nobody may use again: of those with the hash, all are revoked.
pub IsConsumed-All :
    (hash : String) (ts : List RefreshTokenRow)
    → exists_row (is_unrevoked hash) ts ≡ false
    → All (λ t. is_none t.revoked_at ≡ false) (select (has_hash hash) ts)
unfolding exists_row select
IsConsumed-All hash [] h = tt
IsConsumed-All hash (t ∷ ts) h = ground (arith, IsConsumed-All hash ts)

-- Of tokens that share their hash with no other token, the rotation query finds the one named.
pub IsNamedBy-All :
    (hash id : String) (ts : List RefreshTokenRow)
    → All (λ t. has_hash hash t ≡ true → t.refresh_token_id ≡ id) ts
    → All (λ t. t.refresh_token_id ≡ id) (select (has_hash hash) ts)
unfolding select
IsNamedBy-All hash id [] h = tt
IsNamedBy-All hash id (t ∷ ts) h = ground (arith, IsNamedBy-All hash id ts h.1, h.0)

-- Revoking the token that the hash names leaves none with the hash unrevoked.
pub update_rows-IsConsumed :
    (pg : Postgres) (hash id : String) (now : Time) (ts : List RefreshTokenRow)
    → All (λ t. has_hash hash t ≡ true → t.refresh_token_id ≡ id) ts
    → exists_row (is_unrevoked hash) (update_rows (is_live_token id) (mark_revoked pg now) ts)
      ≡ false
unfolding exists_row update_rows
update_rows-IsConsumed pg hash id now [] h = refl
update_rows-IsConsumed pg hash id now (t ∷ ts) h =
    ground (arith, update_rows-IsConsumed pg hash id now ts h.1, h.0, eq_iff t.refresh_token_id id)
