-- ===== src/WebDav/Multiget.antt =====
-- The loop over the hrefs that `build_calendar_multiget_body` of src/caldav/client.rs and
-- `build_addressbook_multiget_body` of src/carddav/client.rs both have.
use fast_dav_rs.Base.{
  ap, ℕ, ◌+◌, ◌≡◌, refl, sym, ◌∙◌, List, [], ◌∷◌, ◌++◌, not, keep, is_empty, All, length, arith,
}
use mathlib.Core.Path.{ap₂}
use mathlib.Core.List.{append_assoc, append-nil}
use fast_dav_rs.Base.Slices.{byte_at}
use fast_dav_rs.Base.Text.{Text, codes}
use fast_dav_rs.WebDav.Xml.{escape_xml}
use fast_dav_rs.WebDav.Xml.Escape.{IsHarmless, escape_xml-IsHarmless, escape_xml-injective}

-- The loop over its variables `href_xml` and `total`.
unfoldable pub href_loop : Text → ℕ → List Text → Text × ℕ
href_loop href_xml total [] = (href_xml, total)
href_loop href_xml total ([] ∷ hrefs) = href_loop href_xml total hrefs
href_loop href_xml total (h ∷ hrefs) =
    href_loop (((href_xml ++ codes "<D:href>") ++ escape_xml h) ++ codes "</D:href>") (total + 1)
      hrefs

-- The elements of the hrefs, one behind the other.
unfoldable pub href_elements : List Text → Text
href_elements [] = []
href_elements (h ∷ hrefs) =
    codes "<D:href>" ++ (escape_xml h ++ (codes "</D:href>" ++ href_elements hrefs))

abbrev pub given_hrefs : List Text → List Text
given_hrefs = keep (λ h. not (is_empty h))

pub href_loop-href_elements :
    (href_xml : Text) (total : ℕ) (hrefs : List Text)
    → href_loop href_xml total hrefs
      ≡ (href_xml ++ href_elements (given_hrefs hrefs), total + length (given_hrefs hrefs))
unfolding href_loop href_elements
href_loop-href_elements href_xml total [] =
    ap₂ (λ t n. (t, n)) (sym (append-nil href_xml)) (omega arith)
href_loop-href_elements href_xml total ([] ∷ hrefs) = href_loop-href_elements href_xml total hrefs
href_loop-href_elements href_xml total ((c ∷ h) ∷ hrefs) =
    let later = href_elements (given_hrefs hrefs) in
    href_loop-href_elements
      (((href_xml ++ codes "<D:href>") ++ escape_xml (c ∷ h)) ++ codes "</D:href>") (total + 1)
      hrefs
    ∙ ap₂ (λ t n. (t, n))
        (append_assoc ((href_xml ++ codes "<D:href>") ++ escape_xml (c ∷ h)) (codes "</D:href>")
            later
          ∙ append_assoc (href_xml ++ codes "<D:href>") (escape_xml (c ∷ h))
              (codes "</D:href>" ++ later)
          ∙ append_assoc href_xml (codes "<D:href>")
              (escape_xml (c ∷ h) ++ (codes "</D:href>" ++ later)))
        (omega arith)

-- Texts without `<` in front of one are told apart.
pub split_at_tag :
    (a b : Text) {r s : Text}
    → All IsHarmless a
    → All IsHarmless b
    → a ++ (b'<' ∷ r) ≡ b ++ (b'<' ∷ s)
    → (a ≡ b) × (r ≡ s)
split_at_tag [] [] ha hb e = (refl, cc)
split_at_tag [] (y ∷ b) ha hb e = absurd (hb.0.0 cc)
split_at_tag (x ∷ a) [] ha hb e = absurd (ha.0.0 cc)
split_at_tag (x ∷ a) (y ∷ b) {r} {s} ha hb e =
    let heads : x ≡ y = cc in
    let tails : a ++ (b'<' ∷ r) ≡ b ++ (b'<' ∷ s) = cc in
    let rest = split_at_tag a b ha.1 hb.1 tails in (cc, rest.1)

pub append_cancel : (p : Text) {a b : Text} → p ++ a ≡ p ++ b → a ≡ b
append_cancel [] e = e
append_cancel (x ∷ p) e = append_cancel p cc

-- Before a closing tag, the elements determine the hrefs and their order.
pub href_elements-injective :
    (xs ys : List Text) (t u : Text)
    → href_elements xs ++ (b'<' ∷ b'/' ∷ t) ≡ href_elements ys ++ (b'<' ∷ b'/' ∷ u)
    → xs ≡ ys
unfolding href_elements
href_elements-injective [] [] t u e = refl
href_elements-injective [] (y ∷ ys) t u e = absurd (omega (arith, ap (λ s. byte_at s 1) e))
href_elements-injective (x ∷ xs) [] t u e = absurd (omega (arith, ap (λ s. byte_at s 1) e))
href_elements-injective (x ∷ xs) (y ∷ ys) t u e =
    let inner =
      split_at_tag (escape_xml x) (escape_xml y) (escape_xml-IsHarmless x) (escape_xml-IsHarmless y)
        (sym (append_assoc (escape_xml x) _ _)
          ∙ append_cancel (codes "<D:href>") e
          ∙ append_assoc (escape_xml y) _ _) in
    ap₂ ◌∷◌ (escape_xml-injective x y inner.0)
      (href_elements-injective xs ys t u (append_cancel (codes "/D:href>") inner.1))
