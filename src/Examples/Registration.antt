-- ===== src/Examples/Registration.antt =====
-- Sign-in, verification and deletion, applied to the example and to a user with an open code.
use ofm_auth_service.Prelude.{
  ◌≡◌, refl, [], ◌∷◌, none, false, select, exists_row, update_rows, pick_row, ◌*◌,
}
use ofm_auth_service.Prelude.Int.{pos, ◌+ℤ◌, quot_ℤ, floor_ℤ}
use ofm_auth_service.Prelude.Text.{trim_space, nth_char}
use ofm_auth_service.Domain.{
  TokenPair, RegistrationEmailVerificationResult, status_pending_registration,
}
use ofm_auth_service.Db.{Db}
use ofm_auth_service.Db.Statements.{
  create_refresh_token_query, get_credential_by_identifier_query, verify_registration_email_query,
  list_roles_by_user_id_query, delete_credential_by_user_id_query, get_credential_by_user_id_query,
}
use ofm_auth_service.Action.{World, ok, execute, request, now_utc, new_uuid, read_random, ◌>>=◌}
use ofm_auth_service.Action.Refuses.{Refuses}
use ofm_auth_service.Repository
use ofm_auth_service.Repository.{
  repo, attach_roles, get_by_identifier, create_refresh_token, map_credential_row_to_domain,
  delete_by_user_id, get_by_user_id,
}
use ofm_auth_service.Service.{
  second, sign_in, verify_registration_email, delete_credential, hash_verification_code,
  generate_random_token, sign_access_token, issue_registration_tokens,
}
use ofm_auth_service.Service.Encoding.{hex_encode, bytes, raw_url_encode}
use ofm_auth_service.Service.SignIn.{IsEntitled, sign_in-IsEntitled}
use ofm_auth_service.Service.Registration.{verification_code_once}
use ofm_auth_service.Service.Deletion.{IsGone, delete_credential_erases}
use ofm_auth_service.Examples.{test_env, test_cfg, test_db, test_world, ann, codes}
use ofm_auth_service.Service.Issue.{IsIssued, issue_registration_tokens-IsVerifiedUser}

abbrev pub ann_pair : TokenPair
ann_pair = record {
  user_id = "ann-id";
  access_token = "signed";
  refresh_token = "AgME";
  token_type = "Bearer";
  expires_in = pos 900;
}

abbrev pub after_sign_in : World
after_sign_in = (sign_in test_env (repo test_env) test_cfg " ann " "secret" test_world).1

pub signed_in :
    sign_in test_env (repo test_env) test_cfg " ann " "secret" test_world
    ≡ (ok ann_pair, after_sign_in)
unfolding sign_in get_by_identifier create_refresh_token generate_random_token sign_access_token
    hash_verification_code execute now_utc new_uuid read_random ◌>>=◌ trim_space hex_encode bytes
    raw_url_encode nth_char select exists_row pick_row get_credential_by_identifier_query
    create_refresh_token_query map_credential_row_to_domain ◌+ℤ◌ quot_ℤ floor_ℤ
signed_in = refl

sign_in-IsEntitled_example : IsEntitled test_env test_cfg " ann " "secret" test_db ann_pair
sign_in-IsEntitled_example =
    sign_in-IsEntitled test_env test_cfg " ann " "secret" test_world after_sign_in ann_pair
      signed_in

abbrev pending_db : Db
pending_db = record test_db {
  auth_credentials =
      record ann { email_verified = false; status = status_pending_registration } ∷ [];
  email_verification_codes =
      record {
        email_verification_code_id = "c1";
        user_id = "ann-id";
        token_hash = hex_encode (codes "123456");
        expires_at = pos (600 * second);
        used_at = none;
        created_at = pos 0;
      }
      ∷ [];
}

abbrev pending_world : World
pending_world = record test_world { db = pending_db }

abbrev after_verification : World
after_verification =
    (verify_registration_email test_env (repo test_env) test_cfg "ann-id" "123456" pending_world).1

abbrev verified : RegistrationEmailVerificationResult
verified = record { user_id = "ann-id"; email = "ann@example.com"; status = "verified" }

verification :
    verify_registration_email test_env (repo test_env) test_cfg "ann-id" "123456" pending_world
    ≡ (ok verified, after_verification)
unfolding verify_registration_email Repository.verify_registration_email attach_roles
    hash_verification_code execute now_utc ◌>>=◌ trim_space hex_encode nth_char select exists_row
    update_rows pick_row verify_registration_email_query list_roles_by_user_id_query
    map_credential_row_to_domain
verification = refl

-- The clock of the example runs one second in each request.
abbrev later_world : World
later_world = record after_verification { tick = 40 }

verification_code_once_example :
    Refuses later_world.db
      (verify_registration_email test_env (repo test_env) test_cfg "ann-id" "123456" later_world)
verification_code_once_example =
    verification_code_once test_env test_cfg "ann-id" "123456" pending_world after_verification
      later_world verified verification refl refl

abbrev after_deletion : World
after_deletion = (delete_credential test_env (repo test_env) test_cfg "ann-id" test_world).1

deletion :
    delete_credential test_env (repo test_env) test_cfg "ann-id" test_world
    ≡ (ok tt, after_deletion)
unfolding delete_credential delete_by_user_id execute request ◌>>=◌ select
    delete_credential_by_user_id_query
deletion = refl

delete_credential_erases_example : IsGone test_env "ann-id" test_db after_deletion.db
delete_credential_erases_example =
    delete_credential_erases test_env test_cfg "ann-id" test_world after_deletion deletion

abbrev after_issue : World
after_issue = (issue_registration_tokens test_env (repo test_env) test_cfg "ann-id" test_world).1

abbrev issued_pair : TokenPair
issued_pair = record ann_pair { refresh_token = "AwQF" }

issued :
    issue_registration_tokens test_env (repo test_env) test_cfg "ann-id" test_world
    ≡ (ok issued_pair, after_issue)
unfolding issue_registration_tokens get_by_user_id attach_roles create_refresh_token
    generate_random_token sign_access_token hash_verification_code execute now_utc new_uuid
    read_random ◌>>=◌ trim_space hex_encode bytes raw_url_encode nth_char select exists_row pick_row
    get_credential_by_user_id_query create_refresh_token_query list_roles_by_user_id_query
    map_credential_row_to_domain ◌+ℤ◌ quot_ℤ floor_ℤ
issued = refl

issue_registration_tokens-IsVerifiedUser_example :
    IsIssued test_env test_cfg "ann-id" test_db issued_pair
issue_registration_tokens-IsVerifiedUser_example =
    issue_registration_tokens-IsVerifiedUser test_env test_cfg "ann-id" test_world after_issue
      issued_pair issued
