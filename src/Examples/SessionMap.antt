-- ===== src/Examples/SessionMap.antt =====
-- The theorems on the map of sessions and on refused calls, applied to the example.
use ofm_auth_service.Prelude.{
  true, ◌==ℕ◌, if◌then◌else◌, update_rows, ◌≡◌, refl, false, none, some, select, arith, ◌*◌,
  pick_row, exists_row,
}
use ofm_auth_service.Domain.{TokenPair, failed_to_rotate_refresh_token, email_already_taken}
use ofm_auth_service.Db.{RefreshTokenRow, driver_error}
use ofm_auth_service.Db.Invariant.{IsValid}
use ofm_auth_service.Db.Sessions.{IsOnly}
use ofm_auth_service.Db.Statements.{
  refresh_token_for_rotation_query, revoke_refresh_token_query, create_refresh_token_query,
  join_owners,
}
use ofm_auth_service.Action.{
  Env, World, ok, err, execute, transaction, now_utc, new_uuid, read_random, ◌>>=◌,
}
use ofm_auth_service.Repository.{
  repo, rotate_refresh_token, translate_load_error, map_credential_row_to_domain,
}
use ofm_auth_service.Repository.Translator.{translate_rotate_refresh_token_error}
use ofm_auth_service.Service.{
  refresh, sign_out, hash_verification_code, generate_random_token, second, create_credential,
}
use ofm_auth_service.Service.Sessions.{presented}
use ofm_auth_service.Service.Encoding.{hex_encode, bytes, raw_url_encode}
use ofm_auth_service.Service.Refinement.{IsRenewal, refresh_renews, IsClosing, sign_out_closes}
use ofm_auth_service.Service.Progress.{IsServed, open_session_closes, open_session_renews}
use ofm_auth_service.Service.Opening.{IsOpening, sign_in_opens}
use ofm_auth_service.Service.Atomicity.{refresh-IsAtomic, IsAtomic}
use ofm_auth_service.Examples.{test_env, test_cfg, test_db, test_world, codes}
use ofm_auth_service.Examples.Sessions.{
  after_refresh, after_sign_out, new_pair, refreshed, signed_out,
}
use ofm_auth_service.Examples.Registration.{after_sign_in, ann_pair, signed_in}
use ofm_auth_service.Prelude.Text.{◌==◌, trim_space, nth_char}
use ofm_auth_service.Prelude.Int.{pos, ◌+ℤ◌}
use ofm_auth_service.Service.Creation.{Settles, refusal, clash, create_credential-Settles}

abbrev tok : RefreshTokenRow
tok = record {
  refresh_token_id = "t1";
  user_id = "ann-id";
  token_hash = hex_encode (codes "tok");
  expires_at = pos (1000 * second);
  revoked_at = none;
  created_at = pos 0;
}

valid : IsValid test_db
unfolding exists_row
valid = ground arith

only : IsOnly (presented test_env "tok") tok test_db.refresh_tokens
unfolding hash_verification_code hex_encode select trim_space nth_char
only = refl

refresh_renews_example : IsRenewal test_env test_cfg "tok" tok test_world new_pair after_refresh
refresh_renews_example =
    refresh_renews test_env test_cfg "tok" tok test_world after_refresh new_pair valid only
      (refl, refl) refreshed

sign_out_closes_example : IsClosing test_env test_cfg "tok" tok test_world after_sign_out
sign_out_closes_example =
    sign_out_closes test_env test_cfg "tok" tok test_world after_sign_out valid only (refl, refl)
      signed_out

tok_trimmed : (trim_space "tok" == "") ≡ false
unfolding trim_space
tok_trimmed = refl

open_session_closes_example :
    (v : World) × (sign_out test_env (repo test_env) test_cfg "tok" test_world ≡ (ok tt, v))
    × IsClosing test_env test_cfg "tok" tok test_world v
open_session_closes_example =
    open_session_closes test_env test_cfg "tok" tok test_world (λ n. refl) valid only (refl, refl)
      tok_trimmed (refl, refl)

served : IsServed test_env test_cfg test_world
unfolding exists_row
served = (λ n. (_, refl), λ n. (_, refl, (_, refl, refl)), λ c. (_, refl))

open_session_renews_example :
    (pair : TokenPair) × (v : World) × (refresh test_env (repo test_env) test_cfg "tok" test_world
      ≡ (ok pair, v))
    × IsRenewal test_env test_cfg "tok" tok test_world pair v
open_session_renews_example =
    open_session_renews test_env test_cfg "tok" tok test_world (λ n. refl) served valid only
      (refl, refl) tok_trimmed (refl, refl)

sign_in_opens_example : IsOpening test_env test_cfg test_db ann_pair after_sign_in
sign_in_opens_example =
    sign_in_opens test_env test_cfg " ann " "secret" test_world after_sign_in ann_pair signed_in

-- An environment in which the Commit of the Refresh reports an error and has gone through.
abbrev lost_env : Env
lost_env = record test_env {
  fault = λ n. if n ==ℕ 7 then some (driver_error "connection lost") else none;
  commit_kept = λ n. true;
}

abbrev after_lost : World
after_lost = (refresh lost_env (repo lost_env) test_cfg "tok" test_world).1

lost :
    refresh lost_env (repo lost_env) test_cfg "tok" test_world
    ≡ (err failed_to_rotate_refresh_token, after_lost)
unfolding refresh rotate_refresh_token execute transaction generate_random_token
    hash_verification_code refresh_token_for_rotation_query revoke_refresh_token_query
    create_refresh_token_query now_utc new_uuid read_random ◌>>=◌ translate_load_error trim_space
    hex_encode bytes raw_url_encode nth_char select exists_row update_rows pick_row join_owners ◌+ℤ◌
    translate_rotate_refresh_token_error map_credential_row_to_domain
lost = refl

sole : IsOnly (presented lost_env "tok") tok test_db.refresh_tokens
unfolding hash_verification_code hex_encode select trim_space nth_char
sole = refl

refresh-IsAtomic_example : IsAtomic lost_env test_cfg "tok" tok test_world after_lost.db
refresh-IsAtomic_example =
    refresh-IsAtomic lost_env test_cfg "tok" tok test_world after_lost
      (err failed_to_rotate_refresh_token) valid sole (refl, refl) lost

create_credential-Settles_example :
    Settles
      (some "bob-id")
      (record {
        user_id = "bob-id";
        email = "ann@example.com";
        username = "bob";
        password_hash = "pw";
      })
      (some email_already_taken)
      test_db
      (create_credential test_env
        (repo test_env)
        test_cfg
        "bob-id"
        "ann@example.com"
        "bob"
        "pw"
        test_world)
unfolding refusal clash trim_space exists_row
create_credential-Settles_example =
    create_credential-Settles test_env test_cfg "bob-id" "ann@example.com" "bob" "pw" test_world
      (λ s u e. refl) (λ n. refl)
