-- ===== src/Service/Encoding/Url.antt =====
-- base64.RawURLEncoding and its inverse, for generateRandomToken of
-- internal/application/service.go.
use Prim.Native.Char.{Char, code}
use ofm_auth_service.Prelude.{
  ℕ, zero, suc, ◌+◌, ◌*◌, ◌/◌, ◌%◌, ◌-◌, ◌<◌, String, some, List, [], ◌∷◌, ◌≡◌, refl, sym, ap, ◌∙◌,
  arith, All, ◌==ℕ◌, leb, if◌then◌else◌,
}
use ofm_auth_service.Prelude.Below.{all_below_lem}
use ofm_auth_service.Prelude.Int.{ℤ, pos, negsuc}
use ofm_auth_service.Prelude.Text.{nth_char}
use ofm_auth_service.Action.{Env, World, ok, read_random, or_error, pure}
use ofm_auth_service.Service.{generate_random_token, token_length}
use ofm_auth_service.Service.Encoding.{bytes, url_digit, raw_url_encode}
use ofm_auth_service.Action.Inversion.{bind-eq-ok, or_error-eq-ok}

-- The place of a digit in the alphabet.
abbrev url_value : Char → ℕ
url_value c =
    if leb 97 (code c)
    then code c - 71
    else if code c ==ℕ 95
    then 63
    else if leb 65 (code c)
    then code c - 65
    else if leb 48 (code c)
    then code c + 4
    else 62

-- A reading of four digits as three bytes, and of two or three digits at the end.
unfoldable pub raw_url_decode : String → List ℕ
raw_url_decode String.[] = []
raw_url_decode (String.◌∷◌ c String.[]) = []
raw_url_decode (String.◌∷◌ c (String.◌∷◌ d String.[])) = (url_value c * 4 + url_value d / 16) ∷ []
raw_url_decode (String.◌∷◌ c (String.◌∷◌ d (String.◌∷◌ e String.[]))) =
    (url_value c * 4 + url_value d / 16) ∷ (url_value d % 16 * 16 + url_value e / 4) ∷ []
raw_url_decode (String.◌∷◌ c (String.◌∷◌ d (String.◌∷◌ e (String.◌∷◌ f s)))) =
    (url_value c * 4 + url_value d / 16)
    ∷ (url_value d % 16 * 16 + url_value e / 4)
    ∷ (url_value e % 4 * 64 + url_value f)
    ∷ raw_url_decode s

url_value-url_digit : (n : ℕ) → n < 64 → url_value (url_digit n) ≡ n
unfolding nth_char
url_value-url_digit n h =
    let checked = all_below_lem 64 (λ i. url_value (url_digit i) ==ℕ i) refl n h in ground arith

-- Decoding the encoding of bytes gives the bytes.
pub raw_url_decode-raw_url_encode :
    (bs : List ℕ) → All (λ b. b < 256) bs → raw_url_decode (raw_url_encode bs) ≡ bs
unfolding raw_url_decode raw_url_encode
raw_url_decode-raw_url_encode [] h = refl
raw_url_decode-raw_url_encode (a ∷ []) h =
    grind (arith, url_value-url_digit (a / 4), url_value-url_digit (a % 4 * 16))
raw_url_decode-raw_url_encode (a ∷ b ∷ []) h = grind (
  arith,
  url_value-url_digit (a / 4),
  url_value-url_digit (a % 4 * 16 + b / 16),
  url_value-url_digit (b % 16 * 4),
)
raw_url_decode-raw_url_encode (a ∷ b ∷ c ∷ rest) h = grind (
  arith,
  url_value-url_digit (a / 4),
  url_value-url_digit (a % 4 * 16 + b / 16),
  url_value-url_digit (b % 16 * 4 + c / 64),
  url_value-url_digit (c % 64),
  raw_url_decode-raw_url_encode rest,
)

bytes-All : (n : ℕ) (f : ℕ → ℕ) → All (λ b. b < 256) (bytes n f)
unfolding bytes
bytes-All zero f = tt
bytes-All (suc n) f = (omega arith, bytes-All n (λ i. f (suc i)))

-- How many bytes a configured number asks for: itself where it is positive, else 32.
abbrev pub asked : ℤ → ℕ
asked (pos zero) = 32
asked (pos (suc n)) = suc n
asked (negsuc n) = 32

token_length-asked : (n : ℤ) → token_length n ≡ asked n
unfolding token_length
token_length-asked (pos zero) = refl
token_length-asked (pos (suc n)) = ground arith
token_length-asked (negsuc n) = ground arith

-- A refresh token that was generated reads back as random bytes that the source gave, as many as the
-- configured number where it is positive, else 32.
pub generate_random_token_reads :
    (env : Env) (length : ℤ) (w v : World) (token : String)
    → generate_random_token env length w ≡ (ok token, v)
    → (f : ℕ → ℕ) × (env.random w.tick ≡ some f) × (raw_url_decode token ≡ bytes (asked length) f)
unfolding generate_random_token read_random pure
generate_random_token_reads env length w v token e =
    let (buf, u, got, rest) = bind-eq-ok (read_random env) _ w e in
    let (f, u', filled, last) = bind-eq-ok (or_error buf _) _ u rest in
    let same : env.random w.tick ≡ buf = ground (arith, got) in
    let text : raw_url_encode (bytes (token_length length) f) ≡ token = ground (arith, last) in
    (
      f,
      same ∙ or_error-eq-ok buf _ u filled,
      ap raw_url_decode (sym text)
          ∙ raw_url_decode-raw_url_encode (bytes (token_length length) f) (bytes-All _ f)
          ∙ ap (λ n. bytes n f) (token_length-asked length),
    )
