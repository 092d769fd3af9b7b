-- ===== src/Service/Encoding/Hex.antt =====
-- hex.EncodeToString and its inverse, for hashVerificationCode of internal/application/service.go.
use Prim.Native.Char.{Char, code}
use ofm_auth_service.Prelude.{
  ℕ, ◌+◌, ◌*◌, ◌/◌, ◌%◌, ◌<◌, String, List, [], ◌∷◌, ◌≡◌, refl, arith, All, ◌-◌, ◌==ℕ◌, leb,
  if◌then◌else◌, length,
}
use ofm_auth_service.Prelude.Below.{all_below_lem}
use ofm_auth_service.Prelude.Text.{nth_char}
use ofm_auth_service.Action.{Env}
use ofm_auth_service.Service.Encoding.Digits.{characters}
use ofm_auth_service.Service.{hash_verification_code}
use ofm_auth_service.Service.Encoding.{hex_digit, hex_encode}

-- The value of a digit, by its place after "0" or after "a".
abbrev nibble : Char → ℕ
nibble c = if leb (code c) 57 then code c - 48 else code c - 87

-- A reading of pairs of hexadecimal digits.
unfoldable pub hex_decode : String → List ℕ
hex_decode String.[] = []
hex_decode (String.◌∷◌ c String.[]) = []
hex_decode (String.◌∷◌ c (String.◌∷◌ d s)) = (nibble c * 16 + nibble d) ∷ hex_decode s

nibble-hex_digit : (n : ℕ) → n < 16 → nibble (hex_digit n) ≡ n
unfolding nth_char
nibble-hex_digit n h =
    let checked = all_below_lem 16 (λ i. nibble (hex_digit i) ==ℕ i) refl n h in ground arith

-- Decoding the encoding of bytes gives the bytes.
pub hex_decode-hex_encode : (bs : List ℕ) → All (λ b. b < 256) bs → hex_decode (hex_encode bs) ≡ bs
unfolding hex_decode hex_encode
hex_decode-hex_encode [] h = refl
hex_decode-hex_encode (b ∷ bs) h =
    grind (arith, nibble-hex_digit (b / 16), nibble-hex_digit (b % 16), hex_decode-hex_encode bs)

characters-hex_encode : (bs : List ℕ) → characters (hex_encode bs) ≡ 2 * length bs
unfolding characters hex_encode
characters-hex_encode [] = refl
characters-hex_encode (b ∷ bs) = ground (arith, characters-hex_encode bs)

-- If SHA-256 gives bytes, the stored hash of a token or a code is a text of two characters for each
-- byte of its SHA-256, and read as hexadecimal digits it is that SHA-256.
pub hash_verification_code_reads :
    (env : Env) (s : String)
    → All (λ b. b < 256) (env.sha256 s)
    → (hex_decode (hash_verification_code env s) ≡ env.sha256 s)
      × (characters (hash_verification_code env s) ≡ 2 * length (env.sha256 s))
unfolding hash_verification_code
hash_verification_code_reads env s is_bytes =
    (hex_decode-hex_encode (env.sha256 s) is_bytes, characters-hex_encode (env.sha256 s))
