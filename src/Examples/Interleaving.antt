-- ===== src/Examples/Interleaving.antt =====
-- Two rotations of the example's token side by side.
use ofm_auth_service.Prelude.{
  ◌≡◌, ◌≢◌, false, arith, refl, ◌*◌, select, exists_row, update_rows, pick_row,
}
use ofm_auth_service.Prelude.Int.{pos}
use ofm_auth_service.Prelude.Text.{nth_char}
use ofm_auth_service.Db.Invariant.{IsCanonical}
use ofm_auth_service.Db.Statements.{
  is_live_token, join_owners, refresh_token_for_rotation_query, revoke_refresh_token_query,
  create_refresh_token_query,
}
use ofm_auth_service.Action.{World, ok, err, execute, request, ◌>>=◌}
use ofm_auth_service.Repository.{
  RefreshTokenMutationRow, map_credential_row_to_domain, rotate_writes,
  load_refresh_token_for_mutation, translate_load_error,
}
use ofm_auth_service.Domain.{refresh_token_revoked}
use ofm_auth_service.Repository.Transactions.{
  Mutation, rotation, begin_mutation, finish_mutation, writes, Shared, at_start, set_stage, holding,
  committed, rolled_back, InterleavesTo, here, then, lock, commit, refuse,
}
use ofm_auth_service.Repository.Transactions.Once.{committed_once}
use ofm_auth_service.Service.Encoding.{hex_encode}
use ofm_auth_service.Service.{second}
use ofm_auth_service.Examples.{test_env, test_world, codes, ann}

abbrev rotate_tok : Mutation
rotate_tok = rotation (record {
  current_token_hash = hex_encode (codes "tok");
  new_token_id = "t2";
  new_token_hash = "new";
  new_expires_at = pos (2000 * second);
  now = pos 0;
})

canonical : IsCanonical test_env.pg
canonical s u e = refl

abbrev tok_row : RefreshTokenMutationRow
tok_row = record { refresh_token_id = "t1"; credential = map_credential_row_to_domain ann }

abbrev behind_lock : World
behind_lock = (begin_mutation test_env rotate_tok test_world).1

abbrev behind_writes : World
behind_writes = (writes test_env rotate_tok tok_row behind_lock).1

abbrev behind_commit : World
behind_commit = (finish_mutation test_env rotate_tok tok_row behind_lock).1

abbrev behind_refusal : World
behind_refusal = (begin_mutation test_env rotate_tok behind_commit).1

locked : begin_mutation test_env rotate_tok test_world ≡ (ok tok_row, behind_lock)
unfolding begin_mutation load_refresh_token_for_mutation execute request ◌>>=◌
    refresh_token_for_rotation_query join_owners select pick_row map_credential_row_to_domain
    hex_encode nth_char translate_load_error
locked = refl

written : writes test_env rotate_tok tok_row behind_lock ≡ (ok tok_row.credential, behind_writes)
unfolding begin_mutation rotate_writes load_refresh_token_for_mutation execute request ◌>>=◌
    refresh_token_for_rotation_query revoke_refresh_token_query create_refresh_token_query
    join_owners select pick_row exists_row update_rows map_credential_row_to_domain hex_encode
    nth_char translate_load_error
written = refl

-- The second call comes too late.
late :
    begin_mutation test_env rotate_tok behind_commit ≡ (err refresh_token_revoked, behind_refusal)
unfolding begin_mutation finish_mutation rotate_writes load_refresh_token_for_mutation execute
    request ◌>>=◌ refresh_token_for_rotation_query revoke_refresh_token_query
    create_refresh_token_query join_owners select pick_row exists_row update_rows
    map_credential_row_to_domain hex_encode nth_char translate_load_error
late = refl

abbrev with_lock : Shared
with_lock = record {
  world = behind_lock;
  stage = set_stage 0 (holding tok_row) (at_start test_world).stage;
}

abbrev with_commit : Shared
with_commit = record { world = behind_commit; stage = set_stage 0 (committed "t1") with_lock.stage }

abbrev with_refusal : Shared
with_refusal = record { world = behind_refusal; stage = set_stage 1 rolled_back with_commit.stage }

path : InterleavesTo test_env (λ n. rotate_tok) (at_start test_world) with_refusal
path =
    then
      (then (then here (lock 0 tok_row behind_lock refl locked (λ m other d e. absurd (cc e)) refl))
        (commit 0 tok_row tok_row.credential behind_writes refl written refl refl))
      (refuse 1 refresh_token_revoked behind_refusal refl late refl)

committed_once_example :
    (with_refusal.stage 1 ≢ committed "t1")
    × (exists_row (is_live_token "t1") with_refusal.world.db.refresh_tokens ≡ false)
committed_once_example =
    committed_once test_env canonical (λ n. rotate_tok) test_world with_refusal 0 1 "t1" (refl, tt)
      path (omega arith) refl
