-- ===== src/Repository/Transactions/Tokens.antt =====
-- Open and revoked tokens behind the statements of a commit.
use ofm_auth_service.Prelude.{
  String, true, false, some, List, [], ◌∷◌, ◌++◌, ◌≡◌, ◌≢◌, refl, subst, sym, ◌∙◌, arith,
  exists_row, update_rows, All, eq_iff,
}
use ofm_auth_service.Prelude.Rows.{
  exists_row-update_clears, exists_row-update_rows, All-update_rows,
}
use ofm_auth_service.Domain.{Time}
use ofm_auth_service.Db.{RefreshTokenRow, Postgres}
use ofm_auth_service.Db.Statements.{is_live_token, mark_revoked}
use ofm_auth_service.Action.{Env}
use ofm_auth_service.Repository.Transactions.Writes.{IsOpen, has_token, IsWritten}

-- PostgreSQL reads the identifiers of the tokens as they are.
abbrev pub AreReadBack : Postgres → List RefreshTokenRow → Type 0
AreReadBack pg = All λ t. pg.uuid_in t.refresh_token_id ≡ some t.refresh_token_id

module _ (pg : Postgres) where
  pub IsOpen-read :
      (id : String) (ts : List RefreshTokenRow)
      → AreReadBack pg ts
      → IsOpen id ts
      → pg.uuid_in id ≡ some id
  unfolding exists_row
  IsOpen-read id [] h o = absurd (cc o)
  IsOpen-read id (t ∷ ts) h o =
      ground (arith, IsOpen-read id ts h.1, h.0, eq_iff t.refresh_token_id id)

pub IsOpen-has_token :
    (id : String) (ts : List RefreshTokenRow) → IsOpen id ts → has_token id ts ≡ true
unfolding exists_row
IsOpen-has_token id [] o = o
IsOpen-has_token id (t ∷ ts) o = ground (arith, IsOpen-has_token id ts)

module _ (env : Env) (id : String) (now : Time) where
  abbrev pub marked : List RefreshTokenRow → List RefreshTokenRow
  marked = update_rows (is_live_token id) (mark_revoked env.pg now)

  -- A token that is not the revoked one stays open.
  pub marked-IsOpen :
      (other : String) (ts : List RefreshTokenRow)
      → other ≢ id
      → IsOpen other ts
      → IsOpen other (marked ts)
  unfolding exists_row update_rows
  marked-IsOpen other [] d o = o
  marked-IsOpen other (t ∷ ts) d o = ground (
    arith,
    marked-IsOpen other ts d,
    eq_iff t.refresh_token_id other,
    eq_iff t.refresh_token_id id,
    d,
  )

  -- A token that is not open stays so.
  pub marked-closed :
      (other : String) (ts : List RefreshTokenRow)
      → exists_row (is_live_token other) ts ≡ false
      → exists_row (is_live_token other) (marked ts) ≡ false
  unfolding exists_row update_rows
  marked-closed other [] h = h
  marked-closed other (t ∷ ts) h = ground (arith, marked-closed other ts)

  pub marked-clears :
      (ts : List RefreshTokenRow) → exists_row (is_live_token id) (marked ts) ≡ false
  marked-clears ts =
      exists_row-update_clears (is_live_token id) (mark_revoked env.pg now) ts λ t. ground arith

  pub marked-has_token :
      (other : String) (ts : List RefreshTokenRow)
      → has_token other (marked ts) ≡ has_token other ts
  marked-has_token other ts =
      exists_row-update_rows _ (is_live_token id) (mark_revoked env.pg now) ts λ t. refl

  -- New tokens open none of the old ones.
  pub news-closed :
      (other : String) (news ts : List RefreshTokenRow)
      → All
          (λ t.
            (has_token t.refresh_token_id ts ≡ false)
            × (env.pg.uuid_in t.refresh_token_id ≡ some t.refresh_token_id))
          news
      → has_token other ts ≡ true
      → exists_row (is_live_token other) ts ≡ false
      → exists_row (is_live_token other) (news ++ ts) ≡ false
  unfolding exists_row
  news-closed other [] ts h k c = c
  news-closed other (t ∷ news) ts h k c =
      ground (arith, news-closed other news ts h.1 k c, eq_iff t.refresh_token_id other, h.0)

  pub news-IsOpen :
      (other : String) (news ts : List RefreshTokenRow)
      → IsOpen other ts
      → IsOpen other (news ++ ts)
  unfolding exists_row
  news-IsOpen other [] ts o = o
  news-IsOpen other (t ∷ news) ts o = ground (arith, news-IsOpen other news ts o)

  pub news-has_token :
      (other : String) (news ts : List RefreshTokenRow)
      → has_token other ts ≡ true
      → has_token other (news ++ ts) ≡ true
  unfolding exists_row
  news-has_token other [] ts o = o
  news-has_token other (t ∷ news) ts o = ground (arith, news-has_token other news ts o)

  marked-AreReadBack :
      (ts : List RefreshTokenRow) → AreReadBack env.pg ts → AreReadBack env.pg (marked ts)
  marked-AreReadBack ts h =
      All-update_rows (is_live_token id) (mark_revoked env.pg now) ts (λ x k. k) h

  pub news-AreReadBack :
      (news ts : List RefreshTokenRow)
      → All
          (λ t.
            (has_token t.refresh_token_id ts ≡ false)
            × (env.pg.uuid_in t.refresh_token_id ≡ some t.refresh_token_id))
          news
      → AreReadBack env.pg ts
      → AreReadBack env.pg (news ++ ts)
  news-AreReadBack [] ts h k = k
  news-AreReadBack (t ∷ news) ts h k = (h.0.1, news-AreReadBack news ts h.1 k)

  -- What a commit that revoked the token leaves of the tokens before and after it.
  pub record IsStep (before after : List RefreshTokenRow) : Type 0 where
    pub clears : exists_row (is_live_token id) after ≡ false
    pub opens : (other : String) → other ≢ id → IsOpen other before → IsOpen other after
    pub closes :
        (other : String)
        → has_token other before ≡ true
        → exists_row (is_live_token other) before ≡ false
        → exists_row (is_live_token other) after ≡ false
    pub has : (other : String) → has_token other before ≡ true → has_token other after ≡ true
    pub reads : AreReadBack env.pg before → AreReadBack env.pg after

  written-IsStep :
      (news before : List RefreshTokenRow)
      → has_token id before ≡ true
      → All
          (λ t.
            (has_token t.refresh_token_id (marked before) ≡ false)
            × (env.pg.uuid_in t.refresh_token_id ≡ some t.refresh_token_id))
          news
      → IsStep before (news ++ marked before)
  written-IsStep news before there fresh = record {
    clears =
        news-closed id news (marked before) fresh (marked-has_token id before ∙ there)
          (marked-clears before);
    opens = λ other d o. news-IsOpen other news _ (marked-IsOpen other before d o);
    closes = λ other k c.
        news-closed other news (marked before) fresh (marked-has_token other before ∙ k)
          (marked-closed other before c);
    has = λ other k. news-has_token other news _ (marked-has_token other before ∙ k);
    reads = λ h. news-AreReadBack news _ fresh (marked-AreReadBack before h);
  }

  pub IsWritten-IsStep :
      (before after : List RefreshTokenRow)
      → has_token id before ≡ true
      → IsWritten env id now before after
      → IsStep before after
  IsWritten-IsStep before after there (news, e, fresh) =
      subst (IsStep before) (sym e) (written-IsStep news before there fresh)
