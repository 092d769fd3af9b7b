-- ===== src/Repository/Sessions.antt =====
-- RotateRefreshToken, RevokeRefreshToken and CreateRefreshToken on the map of sessions.
use mathlib.Core.Path.{fun_ext}
use ofm_auth_service.Prelude.{
  String, true, none, some, List, [], ◌∷◌, ◌++◌, map, ◌≡◌, refl, ◌∙◌, ap, subst, arith, is_none,
  select, All, eq_iff,
}
use ofm_auth_service.Prelude.Int.{ltb_ℤ}
use ofm_auth_service.Prelude.Rows.{Unique, pick_row-All, select-All}
use ofm_auth_service.Prelude.Text.{◌==◌}
use ofm_auth_service.Domain.{
  Time, Credential, RotateRefreshTokenParams, RevokeRefreshTokenParams, CreateRefreshTokenParams,
  Err,
}
use ofm_auth_service.Db.{CredentialRow, RefreshTokenRow, Db, Postgres, Moment, answer, DbError}
use ofm_auth_service.Db.Statements.{
  refresh_token_for_rotation_query, revoke_refresh_token_query, create_refresh_token_query,
  new_token, join_owners, is_user, has_hash, list_roles_by_user_id_query,
}
use ofm_auth_service.Db.Tokens.{first_row-eq-answer, All-join_owners}
use ofm_auth_service.Db.Sessions.{
  Sessions, sessions, find_session, update, IsOnly, named_alike, find_session-revoke,
}
use ofm_auth_service.Action.{Env, World, ok, pure, ◌>>=◌, execute, advance}
use ofm_auth_service.Action.Inversion.{bind-eq-ok, execute-eq-ok}
use ofm_auth_service.Action.Post.{Post, Post-bind, Post-of-eq, Post-transaction, Post-execute}
use ofm_auth_service.Repository.{
  RefreshTokenMutationRow, check_mutation_row, load_refresh_token_for_mutation, rotate_body,
  rotate_refresh_token, revoke_body, revoke_refresh_token, attach_roles, translate_load_error,
  map_credential_row_to_domain, list_roles_by_user_id,
}
use ofm_auth_service.Repository.Translator.{translate_rotate_refresh_token_error}

-- PostgreSQL reads the identifiers of the row back as it has written them.
abbrev pub IsReadBack : Postgres → RefreshTokenRow → Type 0
IsReadBack pg t =
    (pg.uuid_in t.refresh_token_id ≡ some t.refresh_token_id)
    × (pg.uuid_in t.user_id ≡ some t.user_id)

-- A token and its owner.
abbrev IsJoined : RefreshTokenRow × CredentialRow → Type 0
IsJoined (t, r) = (r.user_id == t.user_id) ≡ true

join_owner-IsJoined :
    (t : RefreshTokenRow) (rows : List CredentialRow)
    → All (λ r. is_user t.user_id r ≡ true) rows
    → All IsJoined (map (λ r. (t, r)) rows)
join_owner-IsJoined t [] h = tt
join_owner-IsJoined t (r ∷ rows) h = (h.0, join_owner-IsJoined t rows h.1)

both :
    (P : RefreshTokenRow × CredentialRow → Type 0) (xs ys : List (RefreshTokenRow × CredentialRow))
    → All P xs
    → All P ys
    → All P (xs ++ ys)
both P [] ys h k = k
both P (x ∷ xs) ys h k = (h.0, both P xs ys h.1 k)

join_owners-IsJoined :
    (ts : List RefreshTokenRow) (rows : List CredentialRow) → All IsJoined (join_owners ts rows)
unfolding join_owners
join_owners-IsJoined [] rows = tt
join_owners-IsJoined (t ∷ ts) rows =
    both IsJoined _ _ (join_owner-IsJoined t _ (select-All (is_user t.user_id) rows))
      (join_owners-IsJoined ts rows)

-- The query finds the only token with the hash, and its owner.
pub query-IsOnly :
    (hash : String) (t : RefreshTokenRow) (m : Moment) (db : Db) {x : RefreshTokenRow}
    {r : CredentialRow} {db' : Db}
    → IsOnly hash t db.refresh_tokens
    → refresh_token_for_rotation_query hash m db ≡ answer (x, r) db'
    → (x ≡ t) × (r.user_id ≡ t.user_id) × (db' ≡ db)
unfolding refresh_token_for_rotation_query
query-IsOnly hash t m db {x} {r} only e =
    let (picked, same) = first_row-eq-answer _ db e in
    let joined =
      pick_row-All IsJoined m.row _ (join_owners-IsJoined _ db.auth_credentials) picked in
    let from =
      pick_row-All (λ p. p.0 ≡ t) m.row _
        (All-join_owners (λ y. y ≡ t) (select (has_hash hash) db.refresh_tokens) db.auth_credentials
          (rw only (refl, tt)))
        picked in
    (from, ground (arith, eq_iff r.user_id x.user_id), same)

module _ (env : Env) where
  -- The token is neither revoked nor expired.
  abbrev pub IsLive : Time → RefreshTokenRow → Type 0
  IsLive now t = (is_none t.revoked_at ≡ true) × (ltb_ℤ now t.expires_at ≡ true)

  pub check-eq-ok :
      (now : Time) (x : RefreshTokenRow × CredentialRow) (w : World) {row : RefreshTokenMutationRow}
      {v : World}
      → check_mutation_row env now x w ≡ (ok row, v)
      → IsLive now x.0
        × (row ≡ record {
          refresh_token_id = x.0.refresh_token_id;
          credential = map_credential_row_to_domain x.1;
        })
        × (v ≡ w)
  unfolding check_mutation_row ◌>>=◌
  check-eq-ok now x w h = ground arith

  abbrev pub IsLoaded : Time → RefreshTokenRow → Db → RefreshTokenMutationRow → World → Type 0
  IsLoaded now t db row u =
      IsLive now t
      × (row.refresh_token_id ≡ t.refresh_token_id)
      × (row.credential.user_id ≡ t.user_id)
      × (u.db ≡ db)

  pub load-Post :
      (hash : String) (t : RefreshTokenRow) (now : Time) (w : World)
      → IsOnly hash t w.db.refresh_tokens
      → Post (IsLoaded now t w.db) (load_refresh_token_for_mutation env hash now w)
  unfolding load_refresh_token_for_mutation map_credential_row_to_domain
  load-Post hash t now w only =
      Post-of-eq (IsLoaded now t w.db) (load_refresh_token_for_mutation env hash now w) λ row v e.
        let (x, u, found, checked) = bind-eq-ok _ _ w e in
        let (db, q, moved) = execute-eq-ok env translate_load_error _ w found in
        let (from, owner, same) = query-IsOnly hash t _ w.db only q in
        let (live, is_row, stays) = check-eq-ok now x u checked in
        (
          subst (λ y. IsLive now y) from live,
          cc (is_row, from),
          ground (arith, is_row, owner),
          cc (moved, same, stays),
        )

  revoke-sessions :
      (hash : String) (t : RefreshTokenRow) (now : Time) (m : Moment) (db : Db) (a : Unit {0})
      (db' : Db)
      → Unique (λ (x : RefreshTokenRow). x.refresh_token_id) db.refresh_tokens
      → IsOnly hash t db.refresh_tokens
      → IsReadBack env.pg t
      → revoke_refresh_token_query env.pg t.refresh_token_id now m db ≡ answer a db'
      → sessions db' ≡ update (sessions db) hash none
  unfolding revoke_refresh_token_query
  revoke-sessions hash t now m db a db' unique only back e = fun_ext λ other. ground (
    arith,
    back,
    find_session-revoke env.pg hash t.refresh_token_id now other db.refresh_tokens
        (named_alike hash t db.refresh_tokens unique only),
  )

  pub create-sessions :
      (p : CreateRefreshTokenParams) (user : String) (m : Moment) (db : Db) (a : Unit {0})
      (db' : Db)
      → env.pg.uuid_in p.user_id ≡ some user
      → create_refresh_token_query env.pg p m db ≡ answer a db'
      → sessions db'
        ≡ update (sessions db) p.token_hash (some (user, env.pg.timestamptz p.expires_at))
  unfolding create_refresh_token_query new_token find_session
  create-sessions p user m db a db' back e = fun_ext λ other. ground (arith, back)

  -- The sessions behind a rotation of the token t.
  abbrev pub rotated : RefreshTokenRow → RotateRefreshTokenParams → Sessions → Sessions
  rotated t p s =
      update (update s p.current_token_hash none) p.new_token_hash
        (some (t.user_id, env.pg.timestamptz p.new_expires_at))

  -- The credential is the owner's, the token was live, and the sessions have become s.
  abbrev pub IsSession : Time → RefreshTokenRow → Sessions → Credential → World → Type 0
  IsSession now t s c v = (c.user_id ≡ t.user_id) × IsLive now t × (sessions v.db ≡ s)

  abbrev Has : {A : Type 0} → Sessions → A → World → Type 0
  Has s _ v = sessions v.db ≡ s

  revoke-Post :
      (hash id : String) (t : RefreshTokenRow) (now : Time) (db : Db) (u : World)
      → Unique (λ (x : RefreshTokenRow). x.refresh_token_id) db.refresh_tokens
      → IsOnly hash t db.refresh_tokens
      → IsReadBack env.pg t
      → id ≡ t.refresh_token_id
      → u.db ≡ db
      → Post (Has {A = Unit {0}} (update (sessions db) hash none)) (
          execute env translate_rotate_refresh_token_error
            (revoke_refresh_token_query env.pg id now)
            u)
  revoke-Post hash id t now db u unique only back named same =
      Post-execute (Has (update (sessions db) hash none)) env _
        (revoke_refresh_token_query env.pg id now) u
        λ a after e.
          revoke-sessions hash t now (env.moment u.tick) db a after unique only back
            (cc (e, named, same))

  pub create-Post :
      (p : CreateRefreshTokenParams) (user : String) (s : Sessions) (translate : DbError → Err)
      (v : World)
      → env.pg.uuid_in p.user_id ≡ some user
      → sessions v.db ≡ s
      → Post
          (Has {A = Unit {0}}
            (update s p.token_hash (some (user, env.pg.timestamptz p.expires_at))))
          (execute env translate (create_refresh_token_query env.pg p) v)
  create-Post p user s translate v back before =
      Post-execute (Has (update s p.token_hash (some (user, env.pg.timestamptz p.expires_at)))) env
        translate (create_refresh_token_query env.pg p) v
        λ a after e.
          create-sessions p user (env.moment v.tick) v.db a after back e
          ∙ ap (λ x. update x p.token_hash (some (user, env.pg.timestamptz p.expires_at))) before

  pub rotate_body-IsSession :
      (p : RotateRefreshTokenParams) (t : RefreshTokenRow) (w : World)
      → Unique (λ (x : RefreshTokenRow). x.refresh_token_id) w.db.refresh_tokens
      → IsOnly p.current_token_hash t w.db.refresh_tokens
      → IsReadBack env.pg t
      → Post (IsSession p.now t (rotated t p (sessions w.db))) (rotate_body env p w)
  unfolding rotate_body pure
  rotate_body-IsSession p t w unique only back =
      Post-bind (IsLoaded p.now t w.db) _ _ _ w (load-Post p.current_token_hash t p.now w only)
        λ row u (live, named, owner, same).
          Post-bind (Has (update (sessions w.db) p.current_token_hash none)) _ _ _ u
            (revoke-Post p.current_token_hash row.refresh_token_id t p.now w.db u unique only back
              named same)
            λ _ v gone.
              Post-bind (Has (rotated t p (sessions w.db))) _ _ _ v
                (create-Post _ t.user_id _ _ v (ap env.pg.uuid_in owner ∙ back.1) gone)
                λ _ x done. (owner, live, done)

  revoke_body-IsSession :
      (p : RevokeRefreshTokenParams) (t : RefreshTokenRow) (w : World)
      → Unique (λ (x : RefreshTokenRow). x.refresh_token_id) w.db.refresh_tokens
      → IsOnly p.current_token_hash t w.db.refresh_tokens
      → IsReadBack env.pg t
      → Post
          (IsSession p.now t (update (sessions w.db) p.current_token_hash none))
          (revoke_body env p w)
  unfolding revoke_body pure
  revoke_body-IsSession p t w unique only back =
      Post-bind (IsLoaded p.now t w.db) _ _ _ w (load-Post p.current_token_hash t p.now w only)
        λ row u (live, named, owner, same).
          Post-bind (Has (update (sessions w.db) p.current_token_hash none)) _ _ _ u
            (revoke-Post p.current_token_hash row.refresh_token_id t p.now w.db u unique only back
              named same)
            λ _ v gone. (owner, live, gone)

  -- Reading the roles changes neither the owner nor the sessions.
  attach_roles-IsSession :
      (now : Time) (t : RefreshTokenRow) (s : Sessions) (c : Credential) (u : World)
      → IsSession now t s c u
      → Post (IsSession now t s) (attach_roles env c u)
  unfolding attach_roles pure list_roles_by_user_id_query list_roles_by_user_id
  attach_roles-IsSession now t s c u (owner, live, now_s) =
      Post-bind (λ _ v. v.db ≡ u.db) _ _ _ u
        (Post-execute (λ _ v. v.db ≡ u.db) env _ _ u λ a db e. ground arith)
        λ roles v same. (owner, live, ap sessions same ∙ now_s)

  -- A rotation that succeeds is one change of the sessions.
  pub rotate_refresh_token-IsSession :
      (p : RotateRefreshTokenParams) (t : RefreshTokenRow) (w : World)
      → Unique (λ (x : RefreshTokenRow). x.refresh_token_id) w.db.refresh_tokens
      → IsOnly p.current_token_hash t w.db.refresh_tokens
      → IsReadBack env.pg t
      → Post (IsSession p.now t (rotated t p (sessions w.db))) (rotate_refresh_token env p w)
  unfolding rotate_refresh_token
  rotate_refresh_token-IsSession p t w unique only back =
      Post-bind (IsSession p.now t (rotated t p (sessions w.db))) _ _ _ w
        (Post-transaction _ env _ _ w (rotate_body-IsSession p t (advance w) unique only back))
        λ c u h. attach_roles-IsSession p.now t _ c u h

  -- So is a revocation.
  pub revoke_refresh_token-IsSession :
      (p : RevokeRefreshTokenParams) (t : RefreshTokenRow) (w : World)
      → Unique (λ (x : RefreshTokenRow). x.refresh_token_id) w.db.refresh_tokens
      → IsOnly p.current_token_hash t w.db.refresh_tokens
      → IsReadBack env.pg t
      → Post
          (IsSession p.now t (update (sessions w.db) p.current_token_hash none))
          (revoke_refresh_token env p w)
  unfolding revoke_refresh_token
  revoke_refresh_token-IsSession p t w unique only back =
      Post-bind (IsSession p.now t (update (sessions w.db) p.current_token_hash none)) _ _ _ w
        (Post-transaction _ env _ _ w (revoke_body-IsSession p t (advance w) unique only back))
        λ c u h. attach_roles-IsSession p.now t _ c u h
