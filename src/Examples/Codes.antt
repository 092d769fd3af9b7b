-- ===== src/Examples/Codes.antt =====
-- A refresh token and a verification code of the example.
use ofm_auth_service.Prelude.{ℕ, ◌%◌, ◌≡◌, refl, some}
use ofm_auth_service.Prelude.Int.{pos}
use ofm_auth_service.Action.{ok, read_random, ◌>>=◌, advance}
use ofm_auth_service.Service.{generate_random_token, generate_verification_code}
use ofm_auth_service.Service.Encoding.{bytes, raw_url_encode, six_digits}
use ofm_auth_service.Service.Encoding.Url.{raw_url_decode, generate_random_token_reads}
use ofm_auth_service.Service.Encoding.Digits.{
  decimal_from, characters, big_endian, generate_verification_code_reads,
}
use ofm_auth_service.Prelude.Text.{nth_char}
use ofm_auth_service.Examples.{test_env, test_world}

drawn_token : generate_random_token test_env (pos 4) test_world ≡ (ok "AAECAw", advance test_world)
unfolding generate_random_token read_random ◌>>=◌ bytes raw_url_encode nth_char
drawn_token = refl

generate_random_token_reads_example :
    (f : ℕ → ℕ) × (test_env.random 0 ≡ some f) × (raw_url_decode "AAECAw" ≡ bytes 4 f)
generate_random_token_reads_example =
    generate_random_token_reads test_env (pos 4) test_world (advance test_world) "AAECAw"
      drawn_token

drawn_code : generate_verification_code test_env test_world ≡ (ok "000258", advance test_world)
unfolding generate_verification_code read_random ◌>>=◌ six_digits nth_char
drawn_code = refl

generate_verification_code_reads_example :
    (f : ℕ → ℕ) × (test_env.random 0 ≡ some f)
    × (characters "000258" ≡ 6)
    × (decimal_from 0 "000258" ≡ big_endian 0 (bytes 3 f) % 1000000)
generate_verification_code_reads_example =
    generate_verification_code_reads test_env test_world (advance test_world) "000258" refl
      drawn_code
