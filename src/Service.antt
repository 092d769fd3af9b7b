-- ===== src/Service.antt =====
-- internal/application/service.go: the auth service over a repository, and the interface of
-- internal/application/type.go that the transports use. Log lines are left out.
pub mod Encoding
pub mod Keeps
pub mod Sessions
pub mod History
pub mod SignIn
pub mod Issue
pub mod Atomicity
pub mod Quiet
pub mod Refinement
pub mod Opening
pub mod Progress
pub mod Creation
pub mod Pending
pub mod Verifiable
pub mod Registration
pub mod Deletion
use Prim.Native.String.{len}
use ofm_auth_service.Prelude.{ℕ, ◌+◌, ◌*◌, ◌%◌, String, Bool, ◌&&◌, ◌||◌, not, if◌then◌else◌, ◌==ℕ◌}
use ofm_auth_service.Prelude.Int.{ℤ, pos, ◌+ℤ◌, leb_ℤ, pos_part, quot_ℤ, floor_ℤ}
use ofm_auth_service.Prelude.Text.{◌==◌, ◌!=◌, trim_space}
use ofm_auth_service.Config.{JwtConfig}
use ofm_auth_service.Domain.{
  Time, Credential, PendingRegistrationResult, RegistrationEmailVerificationResult, TokenPair,
  invalid_user_id, invalid_email, invalid_username, invalid_password_hash,
  invalid_verification_code, email_not_verified, invalid_credentials, invalid_refresh_token,
  failed_to_create_verification_code, failed_to_create_refresh_token, signer_error,
  status_email_verified,
}
use ofm_auth_service.Action.{
  Env, Reply, value, failure, Action, pure, throw, ◌>>=◌, ◌>>◌, fail_if, or_err, or_error, now_utc,
  new_uuid, read_random,
}
use ofm_auth_service.Repository.{AuthRepository}
use Encoding.{bytes, hex_encode, six_digits, raw_url_encode}

-- AuthService
pub record AuthService : Type 0 where
  pub create_credential : String → String → String → String → Action Credential
  pub create_pending_registration :
      String → String → String → String → Action PendingRegistrationResult
  pub exists_by_email : String → Action Bool
  pub get_email_by_user_id : String → Action String
  pub verify_registration_email : String → String → Action RegistrationEmailVerificationResult
  pub issue_registration_tokens : String → Action TokenPair
  pub sign_in : String → String → Action TokenPair
  pub refresh : String → Action TokenPair
  pub sign_out : String → Action (Unit {0})
  pub deactivate_registration_auth : String → Action (Unit {0})
  pub delete_credential : String → Action (Unit {0})

abbrev pub second : ℕ
second = 1000000000

abbrev pub ten_minutes : ℤ
ten_minutes = pos (600 * second)

-- value%1000000 of the three bytes. They fill disjoint bits, so their `|` is a sum.
unfoldable pub code_value : (ℕ → ℕ) → ℕ
code_value f = (f 0 % 256 * 65536 + f 1 % 256 * 256 + f 2 % 256) % 1000000

-- bytesLen, after the default.
unfoldable pub token_length : ℤ → ℕ
token_length n = if leb_ℤ n (pos 0) then 32 else pos_part n

module _ (env : Env) where
  abbrev fixed_code : String
  fixed_code = trim_space (env.getenv "AUTH_FIXED_VERIFICATION_CODE")

  -- generateVerificationCode; its error is replaced by its only caller.
  unfoldable pub generate_verification_code : Action String
  unfolding code_value
  generate_verification_code =
      if env.getenv "APP_ENV" == "local" && len fixed_code ==ℕ 6 then pure fixed_code else do
        buf ← read_random env
        f ← or_error buf failed_to_create_verification_code
        pure (six_digits (code_value f))

  -- hashVerificationCode
  unfoldable pub hash_verification_code : String → String
  hash_verification_code code = hex_encode (env.sha256 code)

  -- generateRandomToken; its error is replaced by its callers.
  unfoldable pub generate_random_token : ℤ → Action String
  unfolding token_length
  generate_random_token bytes_len = do
    buf ← read_random env
    f ← or_error buf failed_to_create_refresh_token
    pure (raw_url_encode (bytes (token_length bytes_len) f))

  unfoldable pub signed : Reply String → Action String
  signed (value token) = pure token
  signed (failure text) = throw (signer_error text)

  -- signAccessToken
  unfoldable pub sign_access_token : JwtConfig → Credential → Time → Action String
  unfolding signed
  sign_access_token cfg credential now = signed (
      env.sign cfg.access_secret (record {
        subject = credential.user_id;
        email = credential.email;
        username = credential.username;
        roles = credential.roles;
        issued_at = floor_ℤ now second;
        expires_at = floor_ℤ (now +ℤ cfg.access_token_ttl) second;
      }))

  unfoldable pub token_pair : JwtConfig → Credential → String → String → TokenPair
  token_pair cfg credential access_token refresh_token = record {
    user_id = credential.user_id;
    access_token = access_token;
    refresh_token = refresh_token;
    token_type = "Bearer";
    expires_in = quot_ℤ cfg.access_token_ttl second;
  }

module _ (env : Env) (repo : AuthRepository) (cfg : JwtConfig) where
  unfoldable pub create_credential : String → String → String → String → Action Credential
  create_credential user_id email username password_hash = do
    fail_if (user_id == "") invalid_user_id
    fail_if (trim_space email == "") invalid_email
    fail_if (trim_space username == "") invalid_username
    fail_if (trim_space password_hash == "") invalid_password_hash
    repo.create (record {
      user_id = user_id;
      email = email;
      username = username;
      password_hash = password_hash;
    })

  unfoldable pub delete_credential : String → Action (Unit {0})
  delete_credential user_id = do
    fail_if (user_id == "") invalid_user_id
    repo.delete_by_user_id user_id

  unfoldable pub exists_by_email : String → Action Bool
  exists_by_email email = do
    fail_if (trim_space email == "") invalid_email
    repo.exists_by_email (trim_space email)

  unfoldable pub get_email_by_user_id : String → Action String
  get_email_by_user_id user_id = do
    credential ← repo.get_by_user_id (trim_space user_id)
    pure credential.email

  unfoldable pub create_pending_registration :
      String → String → String → String → Action PendingRegistrationResult
  unfolding create_credential
  create_pending_registration user_id email username password_hash = do
    credential ← create_credential user_id email username password_hash
    code ← or_err (generate_verification_code env) failed_to_create_verification_code
    now ← now_utc env
    id ← new_uuid env
    repo.create_verification_code (record {
      id = id;
      user_id = user_id;
      token_hash = hash_verification_code env code;
      expires_at = now +ℤ ten_minutes;
    })
    pure (record {
      user_id = credential.user_id;
      email = credential.email;
      verification_code = code;
      expires_in = "10 minutes";
    })

  unfoldable pub verify_registration_email :
      String → String → Action RegistrationEmailVerificationResult
  verify_registration_email user_id code = do
    fail_if (trim_space user_id == "") invalid_user_id
    fail_if (trim_space code == "") invalid_verification_code
    now ← now_utc env
    credential ←
        repo.verify_registration_email (trim_space user_id)
          (hash_verification_code env (trim_space code)) now
    pure (record { user_id = credential.user_id; email = credential.email; status = "verified" })

  -- The part that IssueRegistrationTokens and SignIn share, from time.Now() on.
  unfoldable pub issue_tokens : Credential → Action TokenPair
  unfolding token_pair
  issue_tokens credential = do
    now ← now_utc env
    access_token ← sign_access_token env cfg credential now
    refresh_token ←
        or_err (generate_random_token env cfg.refresh_token_bytes) failed_to_create_refresh_token
    id ← new_uuid env
    repo.create_refresh_token (record {
      id = id;
      user_id = credential.user_id;
      token_hash = hash_verification_code env refresh_token;
      expires_at = now +ℤ cfg.refresh_token_ttl;
    })
    pure (token_pair env cfg credential access_token refresh_token)

  unfoldable pub issue_registration_tokens : String → Action TokenPair
  unfolding issue_tokens
  issue_registration_tokens user_id = do
    fail_if (trim_space user_id == "") invalid_user_id
    credential ← repo.get_by_user_id (trim_space user_id)
    fail_if (not credential.email_verified) email_not_verified
    fail_if (credential.status != status_email_verified) email_not_verified
    issue_tokens credential

  unfoldable pub sign_in : String → String → Action TokenPair
  unfolding issue_tokens
  sign_in raw_identifier password = do
    let identifier = trim_space raw_identifier
    fail_if (identifier == "" || trim_space password == "") invalid_credentials
    credential ← or_err (repo.get_by_identifier identifier) invalid_credentials
    fail_if (not credential.email_verified || credential.status != status_email_verified)
        invalid_credentials
    fail_if (not (env.bcrypt_matches credential.password_hash password)) invalid_credentials
    issue_tokens credential

  unfoldable pub refresh : String → Action TokenPair
  refresh raw_token = do
    let refresh_token = trim_space raw_token
    fail_if (refresh_token == "") invalid_refresh_token
    now ← now_utc env
    new_refresh_token ←
        or_err (generate_random_token env cfg.refresh_token_bytes) failed_to_create_refresh_token
    id ← new_uuid env
    credential ← repo.rotate_refresh_token (record {
      current_token_hash = hash_verification_code env refresh_token;
      new_token_id = id;
      new_token_hash = hash_verification_code env new_refresh_token;
      new_expires_at = now +ℤ cfg.refresh_token_ttl;
      now = now;
    })
    access_token ← sign_access_token env cfg credential now
    pure (token_pair env cfg credential access_token new_refresh_token)

  unfoldable pub sign_out : String → Action (Unit {0})
  sign_out raw_token = do
    let refresh_token = trim_space raw_token
    fail_if (refresh_token == "") invalid_refresh_token
    now ← now_utc env
    repo.revoke_refresh_token
        (record { current_token_hash = hash_verification_code env refresh_token; now = now })
    pure tt

  unfoldable pub deactivate_registration_auth : String → Action (Unit {0})
  deactivate_registration_auth user_id = do
    fail_if (trim_space user_id == "") invalid_user_id
    repo.deactivate_registration_auth (trim_space user_id)

  abbrev pub auth_service : AuthService
  auth_service = record {
    create_credential = create_credential;
    create_pending_registration = create_pending_registration;
    exists_by_email = exists_by_email;
    get_email_by_user_id = get_email_by_user_id;
    verify_registration_email = verify_registration_email;
    issue_registration_tokens = issue_registration_tokens;
    sign_in = sign_in;
    refresh = refresh;
    sign_out = sign_out;
    deactivate_registration_auth = deactivate_registration_auth;
    delete_credential = delete_credential;
  }
