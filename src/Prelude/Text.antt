-- ===== src/Prelude/Text.antt =====
-- The functions of Go's `strings`, `fmt` and `encoding` packages that the program calls, on valid
-- UTF-8 texts.
use Prim.Native.Nat.{ℕ, zero, suc}
use Prim.Native.Char.{Char, code}
use Prim.Native.String.{String}
use text.Mathlib.Text.{◌==◌ as str_eq, find?}
use mathlib.Core.Bool.{Bool, true, false, ◌&&◌, ◌||◌, not}
use mathlib.Core.Option.{Option, none, some}
use mathlib.Core.List.{}
use ofm_auth_service.Prelude.Tests.{leb, ◌==ℕ◌, if◌then◌else◌, is_none}

infix 50 ◌==◌ ◌!=◌
abbrev pub ◌==◌ : String → String → Bool
s == t = str_eq s t

abbrev pub ◌!=◌ : String → String → Bool
s != t = not (str_eq s t)

abbrev pub is_empty : String → Bool
is_empty String.[] = true
is_empty (String.◌∷◌ c s) = false

-- unicode.IsSpace
unfoldable pub is_space : Char → Bool
is_space ch =
    let c = code ch in
    (leb 9 c && leb c 13)
    || c ==ℕ 32
    || c ==ℕ 0x85
    || c ==ℕ 0xa0
    || c ==ℕ 0x1680
    || (leb 0x2000 c && leb c 0x200a)
    || c ==ℕ 0x2028
    || c ==ℕ 0x2029
    || c ==ℕ 0x202f
    || c ==ℕ 0x205f
    || c ==ℕ 0x3000

unfoldable pub trim_left : String → String
unfolding is_space
trim_left String.[] = String.[]
trim_left (String.◌∷◌ c s) = let rest = trim_left s in if is_space c then rest else String.◌∷◌ c s

-- A white space character is dropped where nothing is left behind it.
abbrev pub trim_cons : Char → String → String
trim_cons c String.[] = if is_space c then String.[] else String.◌∷◌ c String.[]
trim_cons c (String.◌∷◌ d s) = String.◌∷◌ c (String.◌∷◌ d s)

unfoldable pub trim_right : String → String
unfolding is_space
trim_right String.[] = String.[]
trim_right (String.◌∷◌ c s) = trim_cons c (trim_right s)

-- strings.TrimSpace
unfoldable pub trim_space : String → String
unfolding trim_left trim_right
trim_space s = trim_right (trim_left s)

-- strings.Contains
unfoldable pub contains : String → String → Bool
contains s sub = elim (find? s sub) [ none ↦ false | some _ ↦ true ]

unfoldable pub nth_char : ℕ → String → Char
nth_char i String.[] = "0"
nth_char zero (String.◌∷◌ c s) = c
nth_char (suc i) (String.◌∷◌ c s) = nth_char i s

abbrev pub digit : ℕ → Char
digit n = nth_char n "0123456789"

-- strings.CutPrefix: the text behind the prefix, if it is there.
unfoldable pub cut_prefix : String → String → Option String
cut_prefix String.[] s = some s
cut_prefix (String.◌∷◌ c p) String.[] = none
cut_prefix (String.◌∷◌ c p) (String.◌∷◌ d s) =
    let rest = cut_prefix p s in if code c ==ℕ code d then rest else none

-- strings.HasPrefix
unfoldable pub has_prefix : String → String → Bool
unfolding cut_prefix
has_prefix p s = not (is_none (cut_prefix p s))
