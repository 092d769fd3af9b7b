-- ===== src/Examples/Sessions.antt =====
-- The theorems on the service, applied to the example.
use ofm_auth_service.Prelude.{
  ◌*◌, length, ◌≡◌, ◌≢◌, refl, [], ◌∷◌, select, exists_row, update_rows, pick_row, String, All, ◌<◌,
  arith,
}
use ofm_auth_service.Prelude.Int.{pos, ◌+ℤ◌, quot_ℤ, floor_ℤ}
use ofm_auth_service.Domain.{TokenPair}
use ofm_auth_service.Db.Tokens.{IsNamedBy}
use ofm_auth_service.Db.Invariant.{IsValid, no_tables, no_tables-IsValid}
use ofm_auth_service.Action.{World, ok, execute, transaction, now_utc, new_uuid, read_random, ◌>>=◌}
use ofm_auth_service.Repository.{
  repo, rotate_refresh_token, revoke_refresh_token, attach_roles, map_credential_row_to_domain,
  translate_load_error,
}
use ofm_auth_service.Service.{
  auth_service, refresh, sign_out, hash_verification_code, generate_random_token, sign_access_token,
  token_pair,
}
use ofm_auth_service.Service.History.{
  run_calls, run_calls-IsValid, create_pending_registration, deactivate_registration_auth,
  delete_credential,
}
use ofm_auth_service.Service.Sessions.{IsRefused, presented, refresh_once, sign_out_ends_session}
use ofm_auth_service.Examples.{test_env, test_cfg, test_db, test_world, codes}
use ofm_auth_service.Service.Encoding.{hex_encode, bytes, raw_url_encode}
use ofm_auth_service.Prelude.Text.{trim_space, nth_char}
use ofm_auth_service.Db.Statements.{
  join_owners, refresh_token_for_rotation_query, revoke_refresh_token_query,
  create_refresh_token_query, list_roles_by_user_id_query,
}
use ofm_auth_service.Service.Encoding.Digits.{characters}
use ofm_auth_service.Service.Encoding.Hex.{hash_verification_code_reads, hex_decode}

abbrev pub after_refresh : World
after_refresh = (refresh test_env (repo test_env) test_cfg "tok" test_world).1

abbrev pub after_sign_out : World
after_sign_out = (sign_out test_env (repo test_env) test_cfg "tok" test_world).1

abbrev pub new_pair : TokenPair
new_pair = record {
  user_id = "ann-id";
  access_token = "signed";
  refresh_token = "AQID";
  token_type = "Bearer";
  expires_in = pos 900;
}

-- Refresh consults the code below it.
pub refreshed :
    refresh test_env (repo test_env) test_cfg "tok" test_world ≡ (ok new_pair, after_refresh)
unfolding refresh rotate_refresh_token attach_roles execute transaction generate_random_token
    sign_access_token hash_verification_code token_pair refresh_token_for_rotation_query
    revoke_refresh_token_query create_refresh_token_query list_roles_by_user_id_query now_utc
    new_uuid read_random ◌>>=◌ map_credential_row_to_domain translate_load_error trim_space
    hex_encode bytes raw_url_encode nth_char select exists_row update_rows pick_row join_owners ◌+ℤ◌
    quot_ℤ floor_ℤ
refreshed = refl

pub signed_out :
    sign_out test_env (repo test_env) test_cfg "tok" test_world ≡ (ok tt, after_sign_out)
unfolding sign_out revoke_refresh_token attach_roles execute transaction hash_verification_code
    refresh_token_for_rotation_query revoke_refresh_token_query list_roles_by_user_id_query now_utc
    ◌>>=◌ map_credential_row_to_domain translate_load_error trim_space hex_encode nth_char select
    update_rows pick_row join_owners
signed_out = refl

pub named : IsNamedBy (presented test_env "tok") "t1" test_db
named = ((λ _. refl), tt)

replaced : hash_verification_code test_env new_pair.refresh_token ≢ presented test_env "tok"
unfolding hash_verification_code hex_encode trim_space nth_char
replaced = λ e. cc

refresh_once_example : IsRefused test_env test_cfg "tok" after_refresh
refresh_once_example =
    refresh_once test_env test_cfg "tok" "t1" test_world new_pair after_refresh after_refresh refl
      named refreshed replaced refl

sign_out_ends_session_example : IsRefused test_env test_cfg "tok" after_sign_out
sign_out_ends_session_example =
    sign_out_ends_session test_env test_cfg "tok" "t1" test_world after_sign_out after_sign_out refl
      named signed_out refl

run_calls-IsValid_example :
    IsValid
      (run_calls
        (auth_service test_env (repo test_env) test_cfg)
        (create_pending_registration "bob-id" "bob@example.com" "bob" "pw"
          ∷ deactivate_registration_auth "bob-id"
          ∷ delete_credential "bob-id"
          ∷ [])
        (record test_world { db = no_tables })).db
run_calls-IsValid_example =
    run_calls-IsValid test_env test_cfg _ (record test_world { db = no_tables }) no_tables-IsValid

codes-All : (s : String) → All (λ b. b < 256) (codes s)
codes-All String.[] = tt
codes-All (String.◌∷◌ c s) = (omega arith, codes-All s)

-- The codes of the two letters agree modulo 256.
same_hash : hash_verification_code test_env "A" ≡ hash_verification_code test_env "Ł"
unfolding hash_verification_code hex_encode
same_hash = refl

hash_verification_code_reads_example :
    (hex_decode (hash_verification_code test_env "A") ≡ test_env.sha256 "A")
    × (characters (hash_verification_code test_env "A") ≡ 2 * length (test_env.sha256 "A"))
hash_verification_code_reads_example = hash_verification_code_reads test_env "A" (codes-All "A")
