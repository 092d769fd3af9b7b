-- ===== src/Repository/Transactions/Writes.antt =====
-- What the two actions of a call find and leave in the table of refresh tokens.
use ofm_auth_service.Prelude.{
  String, Bool, true, false, some, List, [], ◌∷◌, ◌++◌, ◌≡◌, refl, subst, ap, sym, ◌||◌, none,
  Option, ◌∙◌, arith, is_none, exists_row, update_rows, All, eq_refl,
}
use ofm_auth_service.Prelude.Rows.{All-select, All-mono}
use ofm_auth_service.Prelude.Text.{◌==◌}
use ofm_auth_service.Domain.{Time, Credential, CreateRefreshTokenParams}
use ofm_auth_service.Db.{RefreshTokenRow, Db, Moment, answer, DbError}
use ofm_auth_service.Repository.Translator.{translate_rotate_refresh_token_error}
use ofm_auth_service.Db.Statements.{
  is_live_token, mark_revoked, revoke_refresh_token_query, create_refresh_token_query, new_token,
}
use ofm_auth_service.Db.Invariant.{IsCanonical}
use ofm_auth_service.Db.Tokens.{with_uuid-eq-answer, refresh_token_for_rotation_query-All}
use ofm_auth_service.Action.{
  Env, World, Outcome, ok, err, panicked, pure, conclude, commit_with, advance,
}
use ofm_auth_service.Action.Keeps.{Keeps, keeps_rules}
use ofm_auth_service.Repository.Validity.{refresh_token_for_rotation_query-Keeps}
use ofm_auth_service.Action.Inversion.{bind-eq-ok, execute-eq-ok, request-pure-eq-ok}
use ofm_auth_service.Repository.{
  check_mutation_row, RefreshTokenMutationRow, load_refresh_token_for_mutation, rotate_writes,
  revoke_writes, translate_load_error,
}
use ofm_auth_service.Repository.Sessions.{check-eq-ok}
use ofm_auth_service.Repository.Transactions.{
  presented_hash, Mutation, rotation, revocation, started_at, begin_mutation, finish_mutation,
  writes, goes_through,
}

-- Some token has the identifier and is not revoked.
abbrev pub IsOpen : String → List RefreshTokenRow → Type 0
IsOpen id ts = exists_row (is_live_token id) ts ≡ true

-- Some token has the identifier.
abbrev pub has_token : String → List RefreshTokenRow → Bool
has_token id = exists_row λ t. t.refresh_token_id == id

All-IsOpen :
    (ts : List RefreshTokenRow)
    → All (λ t. is_none t.revoked_at ≡ true → IsOpen t.refresh_token_id ts) ts
unfolding exists_row
All-IsOpen [] = tt
All-IsOpen (t ∷ ts) = (
  λ h. ground (arith, eq_refl t.refresh_token_id, h),
  All-mono ts (λ x k h. ground (arith, k h)) (All-IsOpen ts),
)

module _ (env : Env) where
  -- The tokens behind a commit: those before, with the one revoked, and new ones whose identifiers
  -- were free.
  abbrev pub IsWritten : String → Time → List RefreshTokenRow → List RefreshTokenRow → Type 0
  IsWritten id now before after =
      (news : List RefreshTokenRow) × (after
        ≡ news ++ update_rows (is_live_token id) (mark_revoked env.pg now) before)
      × All
          (λ t.
            (has_token t.refresh_token_id
                (update_rows (is_live_token id) (mark_revoked env.pg now) before)
              ≡ false)
            × (env.pg.uuid_in t.refresh_token_id ≡ some t.refresh_token_id))
          news

  pub begin_mutation-IsOpen :
      (call : Mutation) (w v : World) (row : RefreshTokenMutationRow)
      → begin_mutation env call w ≡ (ok row, v)
      → IsOpen row.refresh_token_id w.db.refresh_tokens × (v.db ≡ w.db)
  unfolding begin_mutation load_refresh_token_for_mutation
  begin_mutation-IsOpen call w v row e =
      let (a, u, asked, loaded) = bind-eq-ok _ _ w e in
      let (_, moved) = request-pure-eq-ok env _ _ w asked in
      let (x, u', found, checked) = bind-eq-ok _ _ u loaded in
      let (db, q, moved') = execute-eq-ok env translate_load_error _ u found in
      let (live, is_row, stays) = check-eq-ok env (started_at call) x u' checked in
      let (opened, same) =
        refresh_token_for_rotation_query-All
          (λ t. is_none t.revoked_at ≡ true → IsOpen t.refresh_token_id u.db.refresh_tokens) _ _
          u.db (All-select _ _ u.db.refresh_tokens (All-IsOpen u.db.refresh_tokens)) q in
      (
        ground (arith, is_row, opened live.0, ap (λ (y : World). y.db) moved),
        ap (λ (y : World). y.db) stays
            ∙ ap (λ (y : World). y.db) moved'
            ∙ same
            ∙ ap (λ (y : World). y.db) moved,
      )

  begin_mutation-Keeps : (P : Db → Type 0) (call : Mutation) → Keeps P (begin_mutation env call)
  unfolding begin_mutation load_refresh_token_for_mutation check_mutation_row
  begin_mutation-Keeps P call =
      search (keeps_rules, refresh_token_for_rotation_query-Keeps P env.pg (presented_hash call))

  -- Up to the row nothing is written, however it ends.
  pub begin_mutation-reads : (call : Mutation) (w : World) → (begin_mutation env call w).1.db ≡ w.db
  begin_mutation-reads call w = (begin_mutation-Keeps (λ d. d ≡ w.db) call).at w refl

  revoke-IsWritten :
      (id : String) (now : Time) (m : Moment) (db : Db) (a : Unit {0}) (db' : Db)
      → env.pg.uuid_in id ≡ some id
      → revoke_refresh_token_query env.pg id now m db ≡ answer a db'
      → db'.refresh_tokens
        ≡ update_rows (is_live_token id) (mark_revoked env.pg now) db.refresh_tokens
  unfolding revoke_refresh_token_query
  revoke-IsWritten id now m db a db' known e = ground (arith, known)

  create-IsWritten :
      (p : CreateRefreshTokenParams) (m : Moment) (db : Db) (a : Unit {0}) (db' : Db)
      → IsCanonical env.pg
      → create_refresh_token_query env.pg p m db ≡ answer a db'
      → (t : RefreshTokenRow) × (db'.refresh_tokens ≡ t ∷ db.refresh_tokens)
        × (has_token t.refresh_token_id db.refresh_tokens ≡ false)
        × (env.pg.uuid_in t.refresh_token_id ≡ some t.refresh_token_id)
  unfolding create_refresh_token_query new_token
  create-IsWritten p m db a db' canonical e =
      let (id, named, inner) = with_uuid-eq-answer (env.pg.uuid_in p.id) _ e in
      let (user, known, stored) = with_uuid-eq-answer (env.pg.uuid_in p.user_id) _ inner in
      (
        new_token env.pg m.now id user p,
        ground (arith, stored),
        ground (arith, stored),
        canonical p.id id named,
      )

  writes-IsWritten :
      (call : Mutation) (row : RefreshTokenMutationRow) (w v : World) (c : Credential)
      → IsCanonical env.pg
      → env.pg.uuid_in row.refresh_token_id ≡ some row.refresh_token_id
      → writes env call row w ≡ (ok c, v)
      → IsWritten row.refresh_token_id (started_at call) w.db.refresh_tokens v.db.refresh_tokens
  unfolding rotate_writes revoke_writes pure
  writes-IsWritten (rotation p) row w v c canonical known e =
      let (_, u, revoked, rest) = bind-eq-ok _ _ w e in
      let (db, q, moved) = execute-eq-ok env _ _ w revoked in
      let (_, u', created, last) = bind-eq-ok _ _ u rest in
      let (db', q', moved') = execute-eq-ok env _ _ u created in
      let gone = revoke-IsWritten row.refresh_token_id p.now _ w.db _ db known q in
      let between : u.db.refresh_tokens
          ≡ update_rows (is_live_token row.refresh_token_id) (mark_revoked env.pg p.now)
              w.db.refresh_tokens =
        ap (λ (y : World). y.db.refresh_tokens) moved ∙ gone in
      let (t, after, fresh, back) = create-IsWritten _ _ u.db _ db' canonical q' in
      (
        t ∷ [],
        cc (last, moved', after, between),
        ((subst (λ ts. has_token t.refresh_token_id ts ≡ false) between fresh, back), tt),
      )
  writes-IsWritten (revocation p) row w v c canonical known e =
      let (_, u, revoked, rest) = bind-eq-ok _ _ w e in
      let (db, q, moved) = execute-eq-ok env _ _ w revoked in
      ([], cc (rest, moved, revoke-IsWritten row.refresh_token_id p.now _ w.db _ db known q), tt)

  commit_with-db :
      (before : Db) (fault : Option DbError) (kept : Bool) (c : Credential) (u : World)
      → (is_none fault || kept) ≡ true
      → (commit_with env translate_rotate_refresh_token_error before fault kept c u).1.db ≡ u.db
  commit_with-db before none kept c u e = refl
  commit_with-db before (some x) true c u e = refl
  commit_with-db before (some x) false c u e = absurd (cc e)

  commit_with-undone :
      (before : Db) (fault : Option DbError) (kept : Bool) (c : Credential) (u : World)
      → (is_none fault || kept) ≡ false
      → (commit_with env translate_rotate_refresh_token_error before fault kept c u).1.db ≡ before
  commit_with-undone before none kept c u e = absurd (cc e)
  commit_with-undone before (some x) true c u e = absurd (cc e)
  commit_with-undone before (some x) false c u e = refl

  conclude-db :
      (before : Db) (r : Outcome Credential × World) {c : Credential} {u : World}
      → r ≡ (ok c, u)
      → goes_through env u ≡ true
      → (conclude env translate_rotate_refresh_token_error before r).1.db ≡ u.db
  conclude-db before r {c} {u} e through =
      ap (λ x. (conclude env translate_rotate_refresh_token_error before x).1.db) e
      ∙ commit_with-db before (env.fault u.tick) (env.commit_kept u.tick) c (advance u) through

  -- What does not go through leaves the tables of the beginning.
  pub conclude-undone :
      (before : Db) (r : Outcome Credential × World)
      → ((c : Credential) (u : World) → r ≡ (ok c, u) → goes_through env u ≡ false)
      → (conclude env translate_rotate_refresh_token_error before r).1.db ≡ before
  conclude-undone before (ok c, u) h =
      commit_with-undone before (env.fault u.tick) (env.commit_kept u.tick) c (advance u)
        (h c u refl)
  conclude-undone before (err e, u) h = refl
  conclude-undone before (panicked, u) h = refl

  -- A call whose Commit goes through has written, whatever the Commit reports.
  pub finish_mutation-IsWritten :
      (call : Mutation) (row : RefreshTokenMutationRow) (w u : World) (c : Credential)
      → IsCanonical env.pg
      → env.pg.uuid_in row.refresh_token_id ≡ some row.refresh_token_id
      → writes env call row w ≡ (ok c, u)
      → goes_through env u ≡ true
      → IsWritten row.refresh_token_id
          (started_at call)
          w.db.refresh_tokens
          (finish_mutation env call row w).1.db.refresh_tokens
  unfolding finish_mutation
  finish_mutation-IsWritten call row w u c canonical known e through =
      subst
        (λ (d : Db).
          IsWritten row.refresh_token_id (started_at call) w.db.refresh_tokens d.refresh_tokens)
        (sym (conclude-db w.db _ e through)) (writes-IsWritten call row w u c canonical known e)
