-- ===== src/Base/Text.antt =====
-- What the program uses of `str` and of byte slices. A text is the list of its code points, a byte
-- slice the list of its bytes.
pub mod Laws
pub mod Number
pub mod Split
use Prim.Native.Char.{code}
use fast_dav_rs.Base.Tests.{leb, within, ◌==◌, if◌then◌else◌}
use fast_dav_rs.Base.Lists.{is_empty}
use Prim.Native.Nat.{ℕ, suc, ◌+◌}
use Prim.Native.String.{String}
use mathlib.Core.Bool.{Bool, true, false, ◌&&◌, ◌||◌}
use mathlib.Core.List.{List, [], ◌∷◌, map}
use mathlib.Core.Option.{Option, none, some}

abbrev pub Bytes : Type 0
Bytes = List ℕ

abbrev pub Text : Type 0
Text = List ℕ

abbrev pub codes : String → Text
codes String.[] = []
codes (String.◌∷◌ c s) = code c ∷ codes s

-- `==` on texts and on byte slices
unfoldable pub text_eq : Text → Text → Bool
text_eq [] [] = true
text_eq (x ∷ xs) (y ∷ ys) = x == y && text_eq xs ys
text_eq _ _ = false

unfoldable pub to_lower : ℕ → ℕ
to_lower c = if within b'A' b'Z' c then c + 32 else c

-- `to_ascii_lowercase`
abbrev pub to_ascii_lowercase : Text → Text
to_ascii_lowercase = map to_lower

unfoldable pub eq_ignore_ascii_case : Text → Text → Bool
unfolding text_eq to_lower
eq_ignore_ascii_case a b = text_eq (to_ascii_lowercase a) (to_ascii_lowercase b)

-- `char::is_whitespace`: the code points with the property White_Space
unfoldable pub is_whitespace : ℕ → Bool
is_whitespace c =
    within 9 13 c
    || c == 32
    || c == 0x85
    || c == 0xA0
    || c == 0x1680
    || within 0x2000 0x200A c
    || within 0x2028 0x2029 c
    || c == 0x202F
    || c == 0x205F
    || c == 0x3000

unfoldable pub trim_start : Text → Text
unfolding is_whitespace
trim_start [] = []
trim_start (c ∷ cs) = let rest = trim_start cs in if is_whitespace c then rest else c ∷ cs

unfoldable pub trim_end : Text → Text
unfolding is_whitespace
trim_end [] = []
trim_end (c ∷ cs) =
    let rest = trim_end cs in if is_empty rest && is_whitespace c then [] else c ∷ rest

unfoldable pub trim : Text → Text
unfolding trim_start trim_end
trim s = trim_end (trim_start s)

abbrev pub is_ascii_digit : ℕ → Bool
is_ascii_digit = within b'0' b'9'

abbrev pub is_ascii_alphanumeric : ℕ → Bool
is_ascii_alphanumeric c = within b'A' b'Z' c || within b'a' b'z' c || is_ascii_digit c

-- The order of `str` and `String`: by code points, a prefix first.
unfoldable pub text_le : Text → Text → Bool
text_le [] ys = true
text_le (x ∷ xs) [] = false
text_le (x ∷ xs) (y ∷ ys) = if x == y then text_le xs ys else leb x y

unfoldable pub starts_with : Text → Text → Bool
starts_with s [] = true
starts_with [] (p ∷ ps) = false
starts_with (c ∷ cs) (p ∷ ps) = c == p && starts_with cs ps

-- `str::find`: the position of the first occurrence
unfoldable pub find_text : Text → Text → Option ℕ
unfolding starts_with
find_text [] needle = if is_empty needle then some 0 else none
find_text (c ∷ cs) needle =
    let later = find_text cs needle in
    if starts_with (c ∷ cs) needle
    then some 0
    else elim later [ none ↦ none | some i ↦ some (suc i) ]

unfoldable pub contains_text : Text → Text → Bool
unfolding find_text
contains_text s needle = elim (find_text s needle) [ none ↦ false | some i ↦ true ]
