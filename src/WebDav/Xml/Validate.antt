-- ===== src/WebDav/Xml/Validate.antt =====
-- What the two validators of src/webdav/xml.rs accept, and that escaping leaves it as it is.
use fast_dav_rs.Base.{
  ℕ, ◌≡◌, ◌≢◌, ◌≤◌, ◌⊎◌, refl, ◌↔◌, inl, inr, true, not, [], ◌∷◌, Option, none, some, arith,
  Bool-cases, All, ap, find,
}
use fast_dav_rs.Base.Result.{ok}
use fast_dav_rs.Base.Text.{Text}
use fast_dav_rs.WebDav.Xml.{
  escape_char, escape_xml, is_component_char, validate_component_name, reject_found,
}

-- A digit, a capital or a small letter of ASCII, or `-`.
abbrev pub IsComponentChar : ℕ → Type 0
IsComponentChar c =
    ((b'0' ≤ c) × (c ≤ b'9'))
    ⊎ (((b'A' ≤ c) × (c ≤ b'Z')) ⊎ (((b'a' ≤ c) × (c ≤ b'z')) ⊎ (c ≡ b'-')))

-- A non-empty text of such characters.
abbrev pub IsComponentName : Text → Type 0
IsComponentName name = (name ≢ []) × All IsComponentChar name

is_component_char_iff : (c : ℕ) → (is_component_char c ≡ true) ↔ IsComponentChar c
unfolding is_component_char
is_component_char_iff c = (λ h. ground arith, λ h. ground arith)

find-none_iff :
    (name : Text) → (find (λ d. not (is_component_char d)) name ≡ none) ↔ All IsComponentChar name
find-none_iff [] = ((λ h. tt), (λ h. refl))
find-none_iff (c ∷ cs) = elim (Bool-cases (is_component_char c)) [
  | inl e ↦ rw e (
    (λ h. ((is_component_char_iff c).0 e, (find-none_iff cs).0 h)),
    (λ h. (find-none_iff cs).1 h.1),
  )
  | inr n ↦ rw n ((λ h. absurd (cc h)), (λ h. absurd (cc (n, (is_component_char_iff c).1 h.0))))
]

reject_found_iff : (o : Option ℕ) → (reject_found o ≡ ok tt) ↔ (o ≡ none)
reject_found_iff none = ((λ h. refl), (λ h. refl))
reject_found_iff (some bad) = ((λ h. cc), (λ h. cc))

-- A component name is accepted exactly when it is not empty and holds only ASCII letters, digits
-- and `-`.
pub validate_component_name_iff :
    (name : Text) → (validate_component_name name ≡ ok tt) ↔ IsComponentName name
validate_component_name_iff [] =
    (unfold validate_component_name in λ h. absurd (cc h), (λ h. absurd (h.0 refl)))
validate_component_name_iff (c ∷ cs) =
    unfold validate_component_name in
    (
      (λ h. (λ e. cc e, (find-none_iff (c ∷ cs)).0 ((reject_found_iff _).0 h))),
      (λ h. (reject_found_iff _).1 ((find-none_iff (c ∷ cs)).1 h.1)),
    )

component_char_unescaped : (c : ℕ) → IsComponentChar c → escape_char c ≡ c ∷ []
unfolding escape_char
component_char_unescaped c h = ground arith

-- Escaping leaves a text of such characters as it is.
pub escape_xml-component_chars : (s : Text) → All IsComponentChar s → escape_xml s ≡ s
unfolding escape_xml
escape_xml-component_chars [] h = refl
escape_xml-component_chars (c ∷ cs) h =
    rw (component_char_unescaped c h.0) (ap (◌∷◌ c) (escape_xml-component_chars cs h.1))
