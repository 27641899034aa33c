-- ===== src/WebDav/Xml/Escape.antt =====
-- `escape_xml` of src/webdav/xml.rs against a reader of character data.
use fast_dav_rs.Base.{
  ℕ, ◌≡◌, ◌≢◌, refl, ◌∙◌, inl, inr, [], ◌∷◌, ◌++◌, Option, none, some, arith, ◌==◌, if◌then◌else◌,
  Bool-cases, All, All-append, ap, ==_iff,
}
use fast_dav_rs.Base.Text.{Text, codes, text_eq}
use fast_dav_rs.WebDav.Xml.{escape_char, escape_xml}

-- The five entities that XML predefines.
abbrev entity : Text → Option ℕ
entity name =
    if text_eq name (codes "amp")
    then some b'&'
    else if text_eq name (codes "lt")
    then some b'<'
    else if text_eq name (codes "gt")
    then some b'>'
    else if text_eq name (codes "quot")
    then some b'"'
    else if text_eq name (codes "apos")
    then some 39
    else none

abbrev prepend : Option ℕ → Option Text → Option Text
prepend (some c) (some cs) = some (c ∷ cs)
prepend _ _ = none

-- Reads character data; inside a reference the argument holds the name read so far. A reference
-- that is unknown or not closed is refused.
unfoldable pub read_text : Option Text → Text → Option Text
read_text none [] = some []
read_text (some name) [] = none
read_text none (c ∷ cs) =
    let rest = read_text (if c == b'&' then some [] else none) cs in
    if c == b'&' then rest else prepend (some c) rest
read_text (some name) (c ∷ cs) =
    let rest = read_text (if c == b';' then none else some (name ++ c ∷ [])) cs in
    if c == b';' then prepend (entity name) rest else rest

read_text-escape_char :
    (c : ℕ) (rest : Text)
    → read_text none (escape_char c ++ rest) ≡ prepend (some c) (read_text none rest)
unfolding escape_char read_text text_eq
read_text-escape_char c rest = elim (Bool-cases (c == b'&')) [
  | inl e ↦ rw e (rw ((==_iff c b'&').0 e))
  | inr n ↦ ground arith
]

-- A reader of character data gets back the very text that was escaped.
pub read_text-escape_xml : (s : Text) → read_text none (escape_xml s) ≡ some s
unfolding escape_xml
read_text-escape_xml [] = unfold read_text in refl
read_text-escape_xml (c ∷ cs) =
    read_text-escape_char c (escape_xml cs) ∙ ap (prepend (some c)) (read_text-escape_xml cs)

-- None of the characters that delimit tags and attribute values.
abbrev pub IsHarmless : ℕ → Type 0
IsHarmless c = (c ≢ b'<') × (c ≢ b'>') × (c ≢ b'"') × (c ≢ 39)

escape_char-IsHarmless : (c : ℕ) → All IsHarmless (escape_char c)
unfolding escape_char
escape_char-IsHarmless c = elim (Bool-cases (c == b'&')) [
  | inl e ↦ rw e (omega arith)
  | inr n ↦ rw n (ground arith)
]

-- Escaped text holds no `<`, `>`, `"` or `'`, whatever was escaped.
pub escape_xml-IsHarmless : (s : Text) → All IsHarmless (escape_xml s)
unfolding escape_xml
escape_xml-IsHarmless [] = tt
escape_xml-IsHarmless (c ∷ cs) =
    All-append IsHarmless (escape_char c) (escape_xml cs) (escape_char-IsHarmless c)
      (escape_xml-IsHarmless cs)

-- Two texts with the same escaped form are equal.
pub escape_xml-injective : (s t : Text) → escape_xml s ≡ escape_xml t → s ≡ t
escape_xml-injective s t e =
    cc (read_text-escape_xml s, read_text-escape_xml t, ap (read_text none) e)
