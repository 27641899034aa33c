-- ===== src/Base/Text/Split.antt =====
-- `str::split` and its variants.
use fast_dav_rs.Base.{
  ℕ, Bool, ◌||◌, List, [], ◌∷◌, Option, none, some, ◌==◌, if◌then◌else◌, not, keep, is_empty,
}
use fast_dav_rs.Base.Text.{Text}

-- Puts a character before the first piece.
abbrev pub extend : ℕ → List Text → List Text
extend c [] = (c ∷ []) ∷ []
extend c (piece ∷ rest) = (c ∷ piece) ∷ rest

-- The pieces between separators, the empty ones included.
unfoldable pub split_by : (ℕ → Bool) → Text → List Text
split_by p [] = [] ∷ []
split_by p (c ∷ cs) = let rest = split_by p cs in if p c then [] ∷ rest else extend c rest

unfoldable pub split : ℕ → Text → List Text
unfolding split_by
split sep = split_by (λ c. c == sep)

-- `split_once`: what stands before and after the first separator
unfoldable pub split_once : ℕ → Text → Option (Text × Text)
split_once sep [] = none
split_once sep (c ∷ cs) =
    let later = split_once sep cs in
    if c == sep
    then some ([], cs)
    else elim later [ none ↦ none | some (before, after) ↦ some (c ∷ before, after) ]

abbrev is_ascii_whitespace : ℕ → Bool
is_ascii_whitespace c = c == 32 || c == 9 || c == 10 || c == 12 || c == 13

unfoldable pub split_ascii_whitespace : Text → List Text
unfolding split_by
split_ascii_whitespace s = keep (λ piece. not (is_empty piece)) (split_by is_ascii_whitespace s)
