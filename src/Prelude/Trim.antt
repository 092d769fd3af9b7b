-- ===== src/Prelude/Trim.antt =====
-- strings.TrimSpace, applied twice.
use Prim.Native.Char.{Char}
use Prim.Native.String.{String}
use mathlib.Core.Path.{◌≡◌, refl, ap, ◌∙◌}
use mathlib.Core.Bool.{false}
use ofm_auth_service.Prelude.Tests.{Bool-cases}
use mathlib.Core.Logic.{inl, inr}
use ofm_auth_service.Prelude.Text.{is_space, trim_left, trim_right, trim_cons, trim_space}

-- The text does not begin with a blank.
abbrev BeginsBare : String → Type 0
BeginsBare String.[] = Unit
BeginsBare (String.◌∷◌ c s) = is_space c ≡ false

trim_left-BeginsBare : (s : String) → BeginsBare (trim_left s)
unfolding trim_left
trim_left-BeginsBare String.[] = tt
trim_left-BeginsBare (String.◌∷◌ c s) = elim (Bool-cases (is_space c)) [
  | inl blank ↦ rw blank (trim_left-BeginsBare s)
  | inr bare ↦ rw bare bare
]

trim_left-bare : (s : String) → BeginsBare s → trim_left s ≡ s
unfolding trim_left
trim_left-bare String.[] h = refl
trim_left-bare (String.◌∷◌ c s) h = rw h refl

trim_cons-BeginsBare : (c : Char) (s : String) → is_space c ≡ false → BeginsBare (trim_cons c s)
trim_cons-BeginsBare c String.[] h = rw h h
trim_cons-BeginsBare c (String.◌∷◌ d s) h = h

trim_right-BeginsBare : (s : String) → BeginsBare s → BeginsBare (trim_right s)
unfolding trim_right
trim_right-BeginsBare String.[] h = tt
trim_right-BeginsBare (String.◌∷◌ c s) h = trim_cons-BeginsBare c (trim_right s) h

trim_right-cons :
    (c : Char) (s : String) → trim_right s ≡ s → trim_right (trim_cons c s) ≡ trim_cons c s
unfolding trim_right
trim_right-cons c String.[] h = elim (Bool-cases (is_space c)) [
  | inl blank ↦ rw blank refl
  | inr bare ↦ rw (bare, trim_cons) (rw bare refl)
]
trim_right-cons c (String.◌∷◌ d s) h = ap (trim_cons c) h

trim_right_twice : (s : String) → trim_right (trim_right s) ≡ trim_right s
unfolding trim_right
trim_right_twice String.[] = refl
trim_right_twice (String.◌∷◌ c s) = trim_right-cons c (trim_right s) (trim_right_twice s)

-- A text without blanks around it has none to trim.
pub trim_space_twice : (s : String) → trim_space (trim_space s) ≡ trim_space s
unfolding trim_space
trim_space_twice s =
    ap trim_right (
      trim_left-bare (trim_right (trim_left s))
        (trim_right-BeginsBare (trim_left s) (trim_left-BeginsBare s)))
    ∙ trim_right_twice (trim_left s)
