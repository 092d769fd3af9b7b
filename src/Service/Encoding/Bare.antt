-- ===== src/Service/Encoding/Bare.antt =====
-- The verification codes of internal/application/service.go are not empty and have no blanks around
-- them.
use ofm_auth_service.Prelude.{
  ℕ, ◌/◌, ◌%◌, String, Bool, true, false, ◌≡◌, refl, ap, arith, ◌==ℕ◌, not, Bool-cases, inl, inr,
  ◌&&◌, subst, eq_iff,
}
use ofm_auth_service.Prelude.Below.{all_below_lem}
use ofm_auth_service.Prelude.Trim.{trim_space_twice}
use ofm_auth_service.Prelude.Text.{◌==◌, is_empty, nth_char, is_space, trim_space}
use ofm_auth_service.Action.{Env, World, ok, read_random, or_error, pure, ◌>>=◌}
use ofm_auth_service.Domain.{failed_to_create_verification_code}
use Prim.Native.String.{len}
use ofm_auth_service.Action.Inversion.{bind-eq-ok}
use ofm_auth_service.Service.{generate_verification_code, code_value, fixed_code}
use ofm_auth_service.Service.Encoding.{decimal_digit, six_digits}

-- The text is not empty, and has no blanks around it.
abbrev pub IsTrimmed : String → Type 0
IsTrimmed s = (trim_space s ≡ s) × ((s == "") ≡ false)

digit-bare : (n : ℕ) → is_space (decimal_digit n) ≡ false
unfolding nth_char is_space
digit-bare n =
    let checked =
      all_below_lem 10 (λ i. not (is_space (nth_char i "0123456789"))) refl (n % 10)
        (omega arith) in
    ground (arith, checked)

-- A text with a property that the empty text lacks is not empty.
not_empty : (P : String → Bool) (s : String) → P "" ≡ false → P s ≡ true → (s == "") ≡ false
not_empty P s h k = elim (Bool-cases (s == "")) [
  | inl same ↦ absurd (cc (ap P ((eq_iff s "").0 same), h, k))
  | inr other ↦ other
]

six_digits-IsTrimmed : (n : ℕ) → IsTrimmed (six_digits n)
unfolding six_digits trim_space
six_digits-IsTrimmed n = (
  rw (digit-bare (n / 100000), digit-bare n) refl,
  not_empty (λ t. not (is_empty t)) (six_digits n) refl refl,
)

fixed-IsTrimmed : (s : String) → (len (trim_space s) ==ℕ 6) ≡ true → IsTrimmed (trim_space s)
fixed-IsTrimmed s h = (trim_space_twice s, not_empty (λ t. len t ==ℕ 6) (trim_space s) refl h)

second_true : (a b : Bool) → (a && b) ≡ true → b ≡ true
second_true true b h = h
second_true false b h = absurd (cc h)

module _ (env : Env) where
  drawn-IsTrimmed :
      (w v : World) (text : String)
      → (do
        buf ← read_random env
        f ← or_error buf failed_to_create_verification_code
        pure (six_digits (code_value f)))
          w
        ≡ (ok text, v)
      → IsTrimmed text
  unfolding pure
  drawn-IsTrimmed w v text e =
      let (buf, u, got, rest) = bind-eq-ok (read_random env) _ w e in
      let (f, u', filled, last) = bind-eq-ok (or_error buf _) _ u rest in
      subst IsTrimmed (ground (arith, last)) (six_digits-IsTrimmed (code_value f))

  pub generate_verification_code-IsTrimmed :
      (w v : World) (text : String)
      → generate_verification_code env w ≡ (ok text, v)
      → IsTrimmed text
  unfolding generate_verification_code pure
  generate_verification_code-IsTrimmed w v text e =
      elim (Bool-cases (env.getenv "APP_ENV" == "local" && len (fixed_code env) ==ℕ 6)) [
        | inl fixed ↦ subst IsTrimmed (cc (rw fixed at e)) (
            fixed-IsTrimmed (env.getenv "AUTH_FIXED_VERIFICATION_CODE")
              (second_true (env.getenv "APP_ENV" == "local") _ fixed))
        | inr random ↦ drawn-IsTrimmed w v text (rw random at e)
      ]
