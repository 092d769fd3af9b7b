-- ===== src/Service/Encoding.antt =====
-- The encodings that internal/application/service.go takes from the standard library:
-- hex.EncodeToString, fmt.Sprintf("%06d") of a number below a million, and
-- base64.RawURLEncoding, over the bytes of a buffer. A byte is a number below 256.
pub mod Hex
pub mod Digits
pub mod Bare
pub mod Url
use Prim.Native.Char.{Char}
use ofm_auth_service.Prelude.{ℕ, zero, suc, ◌+◌, ◌*◌, ◌/◌, ◌%◌, String, List, [], ◌∷◌}
use ofm_auth_service.Prelude.Text.{nth_char}

-- The first n bytes of a source of bytes.
unfoldable pub bytes : ℕ → (ℕ → ℕ) → List ℕ
bytes zero f = []
bytes (suc n) f = (f 0 % 256) ∷ bytes n (λ i. f (suc i))

abbrev pub hex_digit : ℕ → Char
hex_digit n = nth_char n "0123456789abcdef"

-- hex.EncodeToString
unfoldable pub hex_encode : List ℕ → String
hex_encode [] = String.[]
hex_encode (b ∷ bs) =
    String.◌∷◌ (hex_digit (b / 16)) (String.◌∷◌ (hex_digit (b % 16)) (hex_encode bs))

abbrev pub decimal_digit : ℕ → Char
decimal_digit n = nth_char (n % 10) "0123456789"

-- fmt.Sprintf("%06d", n), for n below 1000000.
unfoldable pub six_digits : ℕ → String
six_digits n = String.◌∷◌ (decimal_digit (n / 100000)) (
    String.◌∷◌ (decimal_digit (n / 10000)) (
      String.◌∷◌ (decimal_digit (n / 1000)) (
        String.◌∷◌ (decimal_digit (n / 100))
          (String.◌∷◌ (decimal_digit (n / 10)) (String.◌∷◌ (decimal_digit n) String.[])))))

abbrev pub url_alphabet : String
url_alphabet = "ABCDEFGHIJKLMNOPQRSTUVWXYZabcdefghijklmnopqrstuvwxyz0123456789-_"

abbrev pub url_digit : ℕ → Char
url_digit n = nth_char n url_alphabet

-- base64.RawURLEncoding.EncodeToString: three bytes are four digits, with no padding at the end.
unfoldable pub raw_url_encode : List ℕ → String
raw_url_encode [] = String.[]
raw_url_encode (a ∷ []) =
    String.◌∷◌ (url_digit (a / 4)) (String.◌∷◌ (url_digit (a % 4 * 16)) String.[])
raw_url_encode (a ∷ b ∷ []) =
    String.◌∷◌ (url_digit (a / 4))
      (String.◌∷◌ (url_digit (a % 4 * 16 + b / 16)) (String.◌∷◌ (url_digit (b % 16 * 4)) String.[]))
raw_url_encode (a ∷ b ∷ c ∷ rest) = String.◌∷◌ (url_digit (a / 4)) (
    String.◌∷◌ (url_digit (a % 4 * 16 + b / 16)) (
      String.◌∷◌ (url_digit (b % 16 * 4 + c / 64))
        (String.◌∷◌ (url_digit (c % 64)) (raw_url_encode rest))))
