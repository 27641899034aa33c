-- ===== src/Base/Utf8.antt =====
-- UTF-8 decoding: `str::from_utf8` and `String::from_utf8_lossy`, as one machine over the bytes.
use fast_dav_rs.Base.Tests.{within, if◌then◌else◌, ltb}
use fast_dav_rs.Base.Lists.{All}
use mathlib.Core.Path.{◌≡◌, refl}
use native.Mathlib.Omega.{arith}
use fast_dav_rs.Base.Text.{Bytes, Text}
use Prim.Native.Nat.{ℕ, zero, suc, ◌+◌, ◌-◌, ◌*◌, ◌/◌, ◌%◌, ◌<◌}
use mathlib.Core.List.{List, [], ◌∷◌, ◌++◌, map}
use mathlib.Core.Option.{Option, none, some}

-- Between characters, or inside one: the continuation bytes still due, the range of the next one,
-- and the bits read so far.
pub data Utf8State : Type 0 where
  boundary : Utf8State
  inside : ℕ → ℕ → ℕ → ℕ → Utf8State

-- What a first byte begins; `none` stands for an invalid sequence.
utf8_first : ℕ → List (Option ℕ) × Utf8State
utf8_first b =
    if ltb b 0x80
    then (some b ∷ [], boundary)
    else if within 0xC2 0xDF b
    then ([], inside 1 0x80 0xBF (b - 0xC0))
    else if within 0xE0 0xE0 b
    then ([], inside 2 0xA0 0xBF (b - 0xE0))
    else if within 0xED 0xED b
    then ([], inside 2 0x80 0x9F (b - 0xE0))
    else if within 0xE1 0xEF b
    then ([], inside 2 0x80 0xBF (b - 0xE0))
    else if within 0xF0 0xF0 b
    then ([], inside 3 0x90 0xBF (b - 0xF0))
    else if within 0xF1 0xF3 b
    then ([], inside 3 0x80 0xBF (b - 0xF0))
    else if within 0xF4 0xF4 b
    then ([], inside 3 0x80 0x8F (b - 0xF0))
    else (none ∷ [], boundary)

abbrev advance : ℕ → ℕ → List (Option ℕ) × Utf8State
advance zero bits = (some bits ∷ [], boundary)
advance (suc zero) bits = (some bits ∷ [], boundary)
advance (suc (suc n)) bits = ([], inside (suc n) 0x80 0xBF bits)

-- A byte that does not continue a character ends it as invalid and is read again as a first byte.
utf8_step : Utf8State → ℕ → List (Option ℕ) × Utf8State
unfolding utf8_first
utf8_step boundary b = utf8_first b
utf8_step (inside due lo hi bits) b =
    if within lo hi b
    then advance due (bits * 64 + (b - 0x80))
    else (none ∷ (utf8_first b).0, (utf8_first b).1)

utf8_run : Utf8State → Bytes → List (Option ℕ)
unfolding utf8_step
utf8_run boundary [] = []
utf8_run (inside _ _ _ _) [] = none ∷ []
utf8_run s (b ∷ bs) = (utf8_step s b).0 ++ utf8_run (utf8_step s b).1 bs

abbrev sequence : List (Option ℕ) → Option Text
sequence [] = some []
sequence (none ∷ rest) = none
sequence (some c ∷ rest) = elim (sequence rest) [ none ↦ none | some cs ↦ some (c ∷ cs) ]

unfoldable pub from_utf8 : Bytes → Option Text
unfolding utf8_run
from_utf8 bs = sequence (utf8_run boundary bs)

abbrev or_replacement : Option ℕ → ℕ
or_replacement none = 0xFFFD
or_replacement (some c) = c

unfoldable pub from_utf8_lossy : Bytes → Text
unfolding utf8_run
from_utf8_lossy bs = map or_replacement (utf8_run boundary bs)

encode_char : ℕ → Bytes
encode_char c =
    if ltb c 0x80
    then c ∷ []
    else if ltb c 0x800
    then (0xC0 + c / 64) ∷ (0x80 + c % 64) ∷ []
    else if ltb c 0x10000
    then (0xE0 + c / 4096) ∷ (0x80 + c / 64 % 64) ∷ (0x80 + c % 64) ∷ []
    else (0xF0 + c / 262144) ∷ (0x80 + c / 4096 % 64) ∷ (0x80 + c / 64 % 64) ∷ (0x80 + c % 64) ∷ []

-- `str::as_bytes`
unfoldable pub as_bytes : Text → Bytes
unfolding encode_char
as_bytes [] = []
as_bytes (c ∷ cs) = encode_char c ++ as_bytes cs

-- A text whose bytes are all ASCII is the list of its bytes.
pub as_bytes_ascii : (s : Text) → All (λ b. b < 0x80) (as_bytes s) → as_bytes s ≡ s
unfolding as_bytes
as_bytes_ascii [] h = refl
as_bytes_ascii (c ∷ cs) h = ground (arith, as_bytes_ascii cs)

pub ascii-as_bytes : (s : Text) → All (λ c. c < 0x80) s → as_bytes s ≡ s
unfolding as_bytes
ascii-as_bytes [] h = refl
ascii-as_bytes (c ∷ cs) h = ground (arith, ascii-as_bytes cs h.1)
