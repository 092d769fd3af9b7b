-- ===== src/Repository/Progress.antt =====
-- RevokeRefreshToken and RotateRefreshToken on a token that is open, when the database answers.
use ofm_auth_service.Prelude.{
  ℕ, String, true, some, List, [], ◌∷◌, ◌++◌, map, ◌≡◌, refl, ◌∙◌, ap, exists_row, select, pick_row,
  Bool, update_rows, false,
}
use ofm_auth_service.Prelude.Rows.{exists_row-update_rows, exists_row-select_some, pick_row-some}
use ofm_auth_service.Prelude.Text.{◌==◌}
use ofm_auth_service.Domain.{
  Time, Err, Credential, RevokeRefreshTokenParams, RotateRefreshTokenParams,
  CreateRefreshTokenParams,
}
use ofm_auth_service.Db.{
  CredentialRow, RefreshTokenRow, UserRoleRow, DbError, Db, Moment, answer, has_user,
}
use ofm_auth_service.Db.Statements.{
  refresh_token_for_rotation_query, revoke_refresh_token_query, join_owners, is_user,
  list_roles_by_user_id_query, create_refresh_token_query, new_token, mark_revoked, is_live_token,
}
use ofm_auth_service.Db.Sessions.{IsOnly}
use ofm_auth_service.Action.{Env, World, pure, ◌>>=◌, execute, advance}
use ofm_auth_service.Action.Reaches.{
  IsSound, Reaches, Reaches-bind, Reaches-execute, Reaches-transaction, Reaches-Post,
}
use ofm_auth_service.Repository.{
  rotate_body, rotate_refresh_token, check_mutation_row, load_refresh_token_for_mutation,
  revoke_body, revoke_refresh_token, attach_roles, translate_load_error, list_roles_by_user_id,
}
use ofm_auth_service.Repository.Sessions.{IsReadBack, IsLive, IsLoaded, load-Post, query-IsOnly}

-- Some row is picked from the pairs with the rows, if one of these satisfies the test.
pair-picked :
    (p : CredentialRow → Bool) (t : RefreshTokenRow) (i : ℕ) (rows : List CredentialRow)
    → exists_row p rows ≡ true
    → (x : RefreshTokenRow × CredentialRow) × (pick_row i (map (λ r. (t, r)) rows ++ []) ≡ some x)
unfolding exists_row
pair-picked p t i [] h = absurd (cc h)
pair-picked p t i (r ∷ rows) h = pick_row-some i (t, r) (map (λ x. (t, x)) rows ++ [])

-- The query answers with the only token that has the hash, if the token's user is stored.
query-answers :
    (hash : String) (t : RefreshTokenRow) (m : Moment) (db : Db)
    → IsOnly hash t db.refresh_tokens
    → has_user t.user_id db.auth_credentials ≡ true
    → (r : CredentialRow) × (refresh_token_for_rotation_query hash m db ≡ answer (t, r) db)
unfolding refresh_token_for_rotation_query join_owners
query-answers hash t m db only owned =
    let ((x, r), picked) =
      pair-picked (is_user t.user_id) t m.row (select (is_user t.user_id) db.auth_credentials) (
        exists_row-select_some (is_user t.user_id) (is_user t.user_id) db.auth_credentials
          (λ y e. e) owned) in
    let found : refresh_token_for_rotation_query hash m db ≡ answer (x, r) db =
      rw (only, picked) refl in
    (r, found ∙ ap (λ y. answer (y, r) db) (query-IsOnly hash t m db only found).0)

-- PostgreSQL reads the identifier, and no token has it.
abbrev pub IsFresh : Env → String → Db → Type 0
IsFresh env id db =
    (read : String) × (env.pg.uuid_in id ≡ some read)
    × (exists_row (λ (x : RefreshTokenRow). x.refresh_token_id == read) db.refresh_tokens ≡ false)

module _ (env : Env) (t : RefreshTokenRow) (sound : IsSound env) where
  checked :
      (now : Time) (r : CredentialRow) (u : World)
      → IsLive env now t
      → Reaches (λ _ _. Unit) (check_mutation_row env now (t, r) u)
  unfolding check_mutation_row ◌>>=◌
  checked now r u live = rw (live.0, live.1) (_, _, refl, tt)

  loaded :
      (hash : String) (now : Time) (w : World)
      → IsOnly hash t w.db.refresh_tokens
      → has_user t.user_id w.db.auth_credentials ≡ true
      → IsLive env now t
      → Reaches (IsLoaded env now t w.db) (load_refresh_token_for_mutation env hash now w)
  unfolding load_refresh_token_for_mutation
  loaded hash now w only owned live =
      let (r, found) = query-answers hash t (env.moment w.tick) w.db only owned in
      Reaches-Post _ (load_refresh_token_for_mutation env hash now w)
        (Reaches-bind (λ x _. x ≡ (t, r)) (λ _ _. Unit) _ _ w
          (Reaches-execute _ env translate_load_error (refresh_token_for_rotation_query hash) w
            (t, r) w.db sound found refl)
          λ x u e. rw e (checked now r u live))
        (load-Post env hash t now w only)

  -- The tables with the token revoked.
  abbrev without : Time → Db → Db
  without now db = record db {
    refresh_tokens =
        update_rows (is_live_token t.refresh_token_id) (mark_revoked env.pg now) db.refresh_tokens;
  }

  marked :
      (id : String) (now : Time) (translate : DbError → Err) (u : World) (db : Db)
      → u.db ≡ db
      → IsReadBack env.pg t
      → id ≡ t.refresh_token_id
      → Reaches
          (λ _ v. v.db ≡ without now db)
          (execute env translate (revoke_refresh_token_query env.pg id now) u)
  unfolding revoke_refresh_token_query
  marked id now translate u db same back named =
      Reaches-execute (λ _ v. v.db ≡ without now db) env translate
        (revoke_refresh_token_query env.pg id now) u tt (without now u.db) sound
        (rw (named, back.0) refl) (ap (without now) same)

  revoked :
      (p : RevokeRefreshTokenParams) (w : World)
      → IsOnly p.current_token_hash t w.db.refresh_tokens
      → has_user t.user_id w.db.auth_credentials ≡ true
      → IsLive env p.now t
      → IsReadBack env.pg t
      → Reaches (λ c _. c.user_id ≡ t.user_id) (revoke_body env p w)
  unfolding revoke_body pure
  revoked p w only owned live back =
      Reaches-bind (IsLoaded env p.now t w.db) _ _ _ w
        (loaded p.current_token_hash p.now w only owned live)
        λ row u (_, named, owner, same).
          Reaches-bind _ _ _ _ u (marked row.refresh_token_id p.now _ u w.db same back named)
            λ _ v _. (_, _, refl, owner)

  created :
      (p : CreateRefreshTokenParams) (now : Time) (translate : DbError → Err) (v : World) (db : Db)
      → v.db ≡ without now db
      → IsFresh env p.id db
      → has_user t.user_id db.auth_credentials ≡ true
      → env.pg.uuid_in p.user_id ≡ some t.user_id
      → Reaches (λ _ _. Unit) (execute env translate (create_refresh_token_query env.pg p) v)
  unfolding create_refresh_token_query
  created p now translate v db is_db (read, known, fresh) owned user =
      let unused : exists_row (λ (x : RefreshTokenRow). x.refresh_token_id == read)
            v.db.refresh_tokens
          ≡ false =
        ap
          (λ (d : Db).
            exists_row (λ (x : RefreshTokenRow). x.refresh_token_id == read) d.refresh_tokens)
          is_db
        ∙ exists_row-update_rows (λ (x : RefreshTokenRow). x.refresh_token_id == read)
            (is_live_token t.refresh_token_id) (mark_revoked env.pg now) db.refresh_tokens
            (λ x. refl)
        ∙ fresh in
      let stored : has_user t.user_id v.db.auth_credentials ≡ true =
        ap (λ (d : Db). has_user t.user_id d.auth_credentials) is_db ∙ owned in
      Reaches-execute _ env translate (create_refresh_token_query env.pg p) v tt
        (record v.db {
          refresh_tokens =
              new_token env.pg (env.moment v.tick).now read t.user_id p ∷ v.db.refresh_tokens;
        })
        sound (rw (known, user, unused, stored) refl) tt

  rotated_body :
      (p : RotateRefreshTokenParams) (w : World)
      → IsOnly p.current_token_hash t w.db.refresh_tokens
      → has_user t.user_id w.db.auth_credentials ≡ true
      → IsLive env p.now t
      → IsReadBack env.pg t
      → IsFresh env p.new_token_id w.db
      → Reaches (λ c _. c.user_id ≡ t.user_id) (rotate_body env p w)
  unfolding rotate_body pure
  rotated_body p w only owned live back fresh =
      Reaches-bind (IsLoaded env p.now t w.db) _ _ _ w
        (loaded p.current_token_hash p.now w only owned live)
        λ row u (_, named, owner, same).
          Reaches-bind _ _ _ _ u (marked row.refresh_token_id p.now _ u w.db same back named)
            λ _ v is_db.
              Reaches-bind (λ _ _. Unit) _ _ _ v
                (created _ p.now _ v w.db is_db fresh owned (ap env.pg.uuid_in owner ∙ back.1))
                λ _ x _. (_, _, refl, owner)

  roles_read :
      (c : Credential) (u : World)
      → IsReadBack env.pg t
      → c.user_id ≡ t.user_id
      → Reaches (λ _ _. Unit) (attach_roles env c u)
  unfolding attach_roles list_roles_by_user_id list_roles_by_user_id_query pure
  roles_read c u back owner =
      Reaches-bind (λ _ _. Unit) _ _ _ u
        (Reaches-execute _ env _ (list_roles_by_user_id_query env.pg c.user_id) u
          (env.pg.order_by (
            map (λ (r : UserRoleRow). r.role)
              (select (λ r. r.user_id == t.user_id) u.db.auth_user_roles)))
          u.db sound (rw (owner, back.1) refl) tt)
        λ roles v _. (_, _, refl, tt)

  -- A token that is open can be revoked.
  pub revoke_refresh_token-Reaches :
      (p : RevokeRefreshTokenParams) (w : World)
      → IsOnly p.current_token_hash t w.db.refresh_tokens
      → has_user t.user_id w.db.auth_credentials ≡ true
      → IsLive env p.now t
      → IsReadBack env.pg t
      → Reaches (λ _ _. Unit) (revoke_refresh_token env p w)
  unfolding revoke_refresh_token
  revoke_refresh_token-Reaches p w only owned live back =
      Reaches-bind (λ c _. c.user_id ≡ t.user_id) _ _ _ w
        (Reaches-transaction _ env _ _ w sound (revoked p (advance w) only owned live back))
        λ c u owner. roles_read c u back owner

  -- And it can be rotated, if the new identifier is fresh.
  pub rotate_refresh_token-Reaches :
      (p : RotateRefreshTokenParams) (w : World)
      → IsOnly p.current_token_hash t w.db.refresh_tokens
      → has_user t.user_id w.db.auth_credentials ≡ true
      → IsLive env p.now t
      → IsReadBack env.pg t
      → IsFresh env p.new_token_id w.db
      → Reaches (λ _ _. Unit) (rotate_refresh_token env p w)
  unfolding rotate_refresh_token
  rotate_refresh_token-Reaches p w only owned live back fresh =
      Reaches-bind (λ c _. c.user_id ≡ t.user_id) _ _ _ w
        (Reaches-transaction _ env _ _ w sound
          (rotated_body p (advance w) only owned live back fresh))
        λ c u owner. roles_read c u back owner
