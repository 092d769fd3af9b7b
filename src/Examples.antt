-- ===== src/Examples.antt =====
-- A small environment and tables on which the code is run: one verified user with one refresh
-- token. The hash of a text is its characters' codes modulo 256, a password matches itself.
use Prim.Native.Char.{code}
pub mod Sessions
pub mod SessionMap
pub mod Storage
pub mod Wiring
pub mod Codes
pub mod Serving
pub mod Registration
pub mod Pending
pub mod Interleaving
pub mod Events
pub mod Settings
use ofm_auth_service.Prelude.{false, ℕ, ◌+◌, ◌*◌, String, true, none, some, List, [], ◌∷◌, ◌%◌}
use ofm_auth_service.Prelude.Int.{pos}
use ofm_auth_service.Prelude.Text.{◌==◌}
use ofm_auth_service.Domain.{status_email_verified}
use ofm_auth_service.Config.{JwtConfig}
use ofm_auth_service.Db.{CredentialRow, Db, Postgres}
use ofm_auth_service.Action.{Env, World, value}
use ofm_auth_service.Service.{second}
use ofm_auth_service.Service.Encoding.{hex_encode}

abbrev pub codes : String → List ℕ
codes String.[] = []
codes (String.◌∷◌ c s) = (code c % 256) ∷ codes s

abbrev pub plain_pg : Postgres
plain_pg = record { uuid_in = λ s. some s; timestamptz = λ t. t; order_by = λ xs. xs }

abbrev pub test_env : Env
test_env = record {
  pg = plain_pg;
  clock = λ n. pos (n * second);
  moment = λ n. record { now = pos (n * second); row = 0 };
  fault = λ n. none;
  random = λ n. some (λ i. n + i);
  uuid = λ n. some "00000000-0000-7000-8000-000000000009";
  getenv = λ name. "";
  sha256 = codes;
  bcrypt_matches = λ hash password. hash == password;
  bcrypt_hash = λ n password. value password;
  sign = λ secret claims. value "signed";
  commit_kept = λ n. false;
  publish_fault = λ n. none;
  format_time = λ t. "now";
}

abbrev pub test_cfg : JwtConfig
test_cfg = record {
  access_secret = "access";
  refresh_secret = "refresh";
  issuer = "auth";
  access_token_ttl = pos (900 * second);
  refresh_token_ttl = pos (86400 * second);
  refresh_token_bytes = pos 3;
}

abbrev pub ann : CredentialRow
ann = record {
  user_id = "ann-id";
  email = "ann@example.com";
  username = "ann";
  password_hash = "secret";
  email_verified = true;
  status = status_email_verified;
  roles = [];
  created_at = pos 0;
  updated_at = pos 0;
}

abbrev pub test_db : Db
test_db = record {
  auth_credentials = ann ∷ [];
  email_verification_codes = [];
  refresh_tokens =
      record {
        refresh_token_id = "t1";
        user_id = "ann-id";
        token_hash = hex_encode (codes "tok");
        expires_at = pos (1000 * second);
        revoked_at = none;
        created_at = pos 0;
      }
      ∷ [];
  auth_user_roles = [];
}

abbrev pub test_world : World
test_world = record { db = test_db; tick = 0; sent = [] }
