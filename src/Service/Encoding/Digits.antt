-- ===== src/Service/Encoding/Digits.antt =====
-- The six digits of generateVerificationCode of internal/application/service.go, read back.
use Prim.Native.Char.{code}
use ofm_auth_service.Prelude.{
  ℕ, suc, List, [], ◌∷◌, ◌+◌, ◌*◌, ◌/◌, ◌%◌, ◌-◌, ◌<◌, String, false, some, ◌≡◌, refl, sym, ap, ◌∙◌,
  arith, ◌==ℕ◌,
}
use ofm_auth_service.Prelude.Below.{all_below_lem}
use ofm_auth_service.Prelude.Text.{◌==◌, nth_char}
use ofm_auth_service.Action.{Env, World, ok, read_random, or_error, pure}
use ofm_auth_service.Action.Inversion.{bind-eq-ok, or_error-eq-ok}
use ofm_auth_service.Service.{generate_verification_code, code_value}
use ofm_auth_service.Service.Encoding.{decimal_digit, six_digits, bytes}

-- The number of a text of decimal digits, from a number that stands before it.
unfoldable pub decimal_from : ℕ → String → ℕ
decimal_from n String.[] = n
decimal_from n (String.◌∷◌ c s) = decimal_from (n * 10 + (code c - 48)) s

unfoldable pub characters : String → ℕ
characters String.[] = 0
characters (String.◌∷◌ c s) = suc (characters s)

digit-decimal_digit : (n : ℕ) → code (decimal_digit n) - 48 ≡ n % 10
unfolding nth_char
digit-decimal_digit n =
    let checked =
      all_below_lem 10 (λ i. (code (nth_char i "0123456789") - 48) ==ℕ i) refl (n % 10)
        (omega arith) in
    ground arith

decimal-six_digits : (n : ℕ) → n < 1000000 → decimal_from 0 (six_digits n) ≡ n
unfolding decimal_from six_digits
decimal-six_digits n h = grind (
  arith,
  digit-decimal_digit (n / 100000),
  digit-decimal_digit (n / 10000),
  digit-decimal_digit (n / 1000),
  digit-decimal_digit (n / 100),
  digit-decimal_digit (n / 10),
  digit-decimal_digit n,
)

-- The number that bytes make, the most significant first, behind a number.
unfoldable pub big_endian : ℕ → List ℕ → ℕ
big_endian n [] = n
big_endian n (b ∷ bs) = big_endian (n * 256 + b) bs

code_value-big_endian : (f : ℕ → ℕ) → code_value f ≡ big_endian 0 (bytes 3 f) % 1000000
unfolding code_value big_endian bytes
code_value-big_endian f = omega arith

-- Away from the local environment, a verification code that was generated is a text of six characters
-- that reads back as the number that three random bytes make, the most significant first, modulo a
-- million.
pub generate_verification_code_reads :
    (env : Env) (w v : World) (text : String)
    → (env.getenv "APP_ENV" == "local") ≡ false
    → generate_verification_code env w ≡ (ok text, v)
    → (f : ℕ → ℕ) × (env.random w.tick ≡ some f)
      × (characters text ≡ 6)
      × (decimal_from 0 text ≡ big_endian 0 (bytes 3 f) % 1000000)
unfolding generate_verification_code read_random pure code_value six_digits characters
generate_verification_code_reads env w v text remote e =
    let (buf, u, got, rest) = bind-eq-ok (read_random env) _ w (rw remote at e) in
    let (f, u', filled, last) = bind-eq-ok (or_error buf _) _ u rest in
    let same : env.random w.tick ≡ buf = ground (arith, got) in
    let is_text : six_digits (code_value f) ≡ text = ground (arith, last) in
    let small : code_value f < 1000000 = omega arith in
    (
      f,
      same ∙ or_error-eq-ok buf _ u filled,
      ap characters (sym is_text),
      ap (decimal_from 0) (sym is_text)
          ∙ decimal-six_digits (code_value f) small
          ∙ code_value-big_endian f,
    )
