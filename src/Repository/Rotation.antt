-- ===== src/Repository/Rotation.antt =====
-- RotateRefreshToken and RevokeRefreshToken: the tokens that they accept, refuse and use up.
use ofm_auth_service.Prelude.{
  String, true, false, some, ◌≡◌, ◌≢◌, ap, ◌∙◌, sym, arith, is_none, exists_row, eq_iff, inl, inr,
  subst,
}
use ofm_auth_service.Domain.{
  Time, Credential, RotateRefreshTokenParams, RevokeRefreshTokenParams, CreateRefreshTokenParams,
}
use ofm_auth_service.Db.{CredentialRow, RefreshTokenRow, Db}
use ofm_auth_service.Db.Statements.{
  revoke_refresh_token_query, create_refresh_token_query, new_token, list_roles_by_user_id_query,
}
use ofm_auth_service.Db.Tokens.{
  IsConsumed, IsNamedBy, refresh_token_for_rotation_query-All, IsConsumed-All, IsNamedBy-All,
  update_rows-IsConsumed,
}
use ofm_auth_service.Action.{
  Env, World, ok, pure, ◌>>=◌, execute, request, transaction, advance, succeeded,
}
use ofm_auth_service.Action.Inversion.{bind-eq-ok, execute-eq-ok, Outcome-cases}
use ofm_auth_service.Repository.{
  RefreshTokenMutationRow, check_mutation_row, load_refresh_token_for_mutation, rotate_body,
  rotate_refresh_token, revoke_body, revoke_refresh_token, attach_roles, translate_load_error,
  translate_rotate_refresh_token_error,
}
use ofm_auth_service.Action.Post.{Post, Post-bind, Post-of-eq, Post-transaction}
use ofm_auth_service.Action.Refuses.{Refuses}

module _ (env : Env) where
  -- What a token must be to pass the checks.
  check_mutation_row-eq-ok :
      (now : Time) (x : RefreshTokenRow × CredentialRow) (w : World) {row : RefreshTokenMutationRow}
      {v : World}
      → check_mutation_row env now x w ≡ (ok row, v)
      → (is_none x.0.revoked_at ≡ true) × (row.refresh_token_id ≡ x.0.refresh_token_id) × (v ≡ w)
  unfolding check_mutation_row ◌>>=◌
  check_mutation_row-eq-ok now x w h = ground arith

  -- The lookup refuses a consumed hash.
  load-IsConsumed :
      (hash : String) (now : Time) (w : World) {row : RefreshTokenMutationRow} {v : World}
      → IsConsumed hash w.db
      → load_refresh_token_for_mutation env hash now w ≢ (ok row, v)
  unfolding load_refresh_token_for_mutation
  load-IsConsumed hash now w c h =
      let (x, u, found, checked) = bind-eq-ok _ _ w h in
      let (db, q, _) = execute-eq-ok env translate_load_error _ w found in
      let (revoked, _) =
        refresh_token_for_rotation_query-All (λ t. is_none t.revoked_at ≡ false) hash _ w.db
          (IsConsumed-All hash w.db.refresh_tokens c) q in
      cc (revoked, (check_mutation_row-eq-ok now x u checked).0)

  load-refused :
      (hash : String) (now : Time) (w : World)
      → IsConsumed hash w.db
      → succeeded (load_refresh_token_for_mutation env hash now w).0 ≡ false
  load-refused hash now w c =
      elim (Outcome-cases (load_refresh_token_for_mutation env hash now w)) [
        | inl (row, v, e) ↦ absurd (load-IsConsumed hash now w c e)
        | inr failed ↦ failed
      ]

  -- The lookup that succeeds leaves the tables alone and finds a token with the hash.
  load-eq-ok :
      (hash id : String) (now : Time) (w : World) {row : RefreshTokenMutationRow} {v : World}
      → IsNamedBy hash id w.db
      → load_refresh_token_for_mutation env hash now w ≡ (ok row, v)
      → (row.refresh_token_id ≡ id) × (v.db ≡ w.db)
  unfolding load_refresh_token_for_mutation
  load-eq-ok hash id now w n h =
      let (x, u, found, checked) = bind-eq-ok _ _ w h in
      let (db, q, moved) = execute-eq-ok env translate_load_error _ w found in
      let (named, same) =
        refresh_token_for_rotation_query-All (λ t. t.refresh_token_id ≡ id) hash _ w.db
          (IsNamedBy-All hash id w.db.refresh_tokens n) q in
      let (_, from, stays) = check_mutation_row-eq-ok now x u checked in
      (from ∙ named, cc (moved, same, stays))

  -- The update of revoked_at, where the identifier is one that the database wrote.
  revoke-eq-ok :
      (hash id token_id : String) (now : Time) (w : World) {u : Unit} {v : World}
      → env.pg.uuid_in id ≡ some id
      → token_id ≡ id
      → IsNamedBy hash id w.db
      → execute env translate_rotate_refresh_token_error
          (revoke_refresh_token_query env.pg token_id now)
          w
        ≡ (ok u, v)
      → IsConsumed hash v.db
  unfolding revoke_refresh_token_query
  revoke-eq-ok hash id token_id now w written named n h =
      let (db, q, moved) = execute-eq-ok env translate_rotate_refresh_token_error _ w h in
      ground
        (arith, written, q, moved, update_rows-IsConsumed env.pg hash id now w.db.refresh_tokens n)

  pub db-attach_roles : (c : Credential) (w : World) → (attach_roles env c w).1.db ≡ w.db
  unfolding attach_roles execute request ◌>>=◌ list_roles_by_user_id_query
  db-attach_roles c w = ground arith

  attach_roles-IsConsumed :
      (hash : String) (c : Credential) (w : World)
      → IsConsumed hash w.db
      → Post (λ _ v. IsConsumed hash v.db) (attach_roles env c w)
  attach_roles-IsConsumed hash c w h =
      Post-of-eq _ _
        λ a v e. subst (IsConsumed hash) (sym (db-attach_roles c w) ∙ ap (λ r. r.1.db) e) h

  create-keeps-IsConsumed :
      (hash : String) (p : CreateRefreshTokenParams) (w : World) {u : Unit} {v : World}
      → p.token_hash ≢ hash
      → IsConsumed hash w.db
      → execute env translate_rotate_refresh_token_error (create_refresh_token_query env.pg p) w
        ≡ (ok u, v)
      → IsConsumed hash v.db
  unfolding create_refresh_token_query new_token exists_row
  create-keeps-IsConsumed hash p w ne c h =
      let (db, q, moved) = execute-eq-ok env translate_rotate_refresh_token_error _ w h in
      ground (arith, q, moved, eq_iff p.token_hash hash)

  -- The body of a rotation, where it reaches its end.
  rotate_body-Post :
      (p : RotateRefreshTokenParams) (id : String) (w : World)
      → env.pg.uuid_in id ≡ some id
      → IsNamedBy p.current_token_hash id w.db
      → p.new_token_hash ≢ p.current_token_hash
      → Post (λ _ v. IsConsumed p.current_token_hash v.db) (rotate_body env p w)
  unfolding rotate_body pure
  rotate_body-Post p id w written n ne =
      Post-bind (λ row u. (row.refresh_token_id ≡ id) × (u.db ≡ w.db)) _ _ _ w
        (Post-of-eq _ _ λ row u e. load-eq-ok p.current_token_hash id p.now w n e)
        λ row u (named, same).
          Post-bind (λ _ v. IsConsumed p.current_token_hash v.db) _ _ _ u
            (Post-of-eq _ _ λ _ v e.
              revoke-eq-ok p.current_token_hash id row.refresh_token_id p.now u written named
                (subst (IsNamedBy p.current_token_hash id) (sym same) n) e)
            λ _ v c.
              Post-bind (λ _ x. IsConsumed p.current_token_hash x.db) _ _ _ v
                (Post-of-eq _ _ λ _ x e. create-keeps-IsConsumed p.current_token_hash _ v ne c e)
                λ _ x c'. c'

  -- A rotation that succeeds leaves no unrevoked token with the old hash.
  pub rotate_refresh_token-Post :
      (p : RotateRefreshTokenParams) (id : String) (w : World)
      → env.pg.uuid_in id ≡ some id
      → IsNamedBy p.current_token_hash id w.db
      → p.new_token_hash ≢ p.current_token_hash
      → Post (λ _ v. IsConsumed p.current_token_hash v.db) (rotate_refresh_token env p w)
  unfolding rotate_refresh_token
  rotate_refresh_token-Post p id w written n ne =
      Post-bind (λ _ v. IsConsumed p.current_token_hash v.db) _ _ _ w
        (Post-transaction _ env _ _ w (rotate_body-Post p id (advance w) written n ne))
        λ c u h. attach_roles-IsConsumed p.current_token_hash c u h

  -- So does a revocation.
  pub revoke_refresh_token-Post :
      (p : RevokeRefreshTokenParams) (id : String) (w : World)
      → env.pg.uuid_in id ≡ some id
      → IsNamedBy p.current_token_hash id w.db
      → Post (λ _ v. IsConsumed p.current_token_hash v.db) (revoke_refresh_token env p w)
  unfolding revoke_refresh_token revoke_body pure
  revoke_refresh_token-Post p id w written n =
      Post-bind (λ _ v. IsConsumed p.current_token_hash v.db) _ _ _ w
        (Post-transaction _ env _ _ w (
          Post-bind (λ row u. (row.refresh_token_id ≡ id) × (u.db ≡ w.db)) _ _ _ (advance w)
            (Post-of-eq _ _ λ row u e. load-eq-ok p.current_token_hash id p.now (advance w) n e)
            λ row u (named, same).
              Post-bind (λ _ v. IsConsumed p.current_token_hash v.db) _ _ _ u
                (Post-of-eq _ _ λ _ v e.
                  revoke-eq-ok p.current_token_hash id row.refresh_token_id p.now u written named
                    (subst (IsNamedBy p.current_token_hash id) (sym same) n) e)
                λ _ v c. c))
        λ c u h. attach_roles-IsConsumed p.current_token_hash c u h

  -- A rotation of a consumed hash does not succeed, and changes no table.
  pub rotate_refresh_token-refused :
      (p : RotateRefreshTokenParams) (w : World) (db : Db)
      → w.db ≡ db
      → IsConsumed p.current_token_hash db
      → Refuses db (rotate_refresh_token env p w)
  unfolding rotate_refresh_token rotate_body transaction request ◌>>=◌
  rotate_refresh_token-refused p w db e c = ground (
    arith,
    load-refused p.current_token_hash p.now (advance w)
        (subst (IsConsumed p.current_token_hash) (sym e) c),
  )

  -- Nor does its revocation.
  pub revoke_refresh_token-refused :
      (p : RevokeRefreshTokenParams) (w : World) (db : Db)
      → w.db ≡ db
      → IsConsumed p.current_token_hash db
      → Refuses db (revoke_refresh_token env p w)
  unfolding revoke_refresh_token revoke_body transaction request ◌>>=◌
  revoke_refresh_token-refused p w db e c = ground (
    arith,
    load-refused p.current_token_hash p.now (advance w)
        (subst (IsConsumed p.current_token_hash) (sym e) c),
  )
