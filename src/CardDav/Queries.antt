-- ===== src/CardDav/Queries.antt =====
-- src/carddav/client.rs: the bodies of the reports.
use mathlib.Core.List.{append_assoc}
use native.Mathlib.Nat.{zero-add}
use fast_dav_rs.Base.{
  ℕ, ◌+◌, Bool, false, ◌≡◌, ◌↔◌, suc, unwrap_or, drop, take, ◌>>=?◌, refl, sym, ap, ◌∙◌, List, [],
  ◌∷◌, ◌++◌, Option, none, some, ◌==◌, length, if◌then◌else◌, arith,
}
use fast_dav_rs.Base.Text.{Text, codes, find_text, contains_text, to_ascii_lowercase, trim}
use fast_dav_rs.WebDav.Xml.{escape_xml}
use fast_dav_rs.WebDav.Xml
use fast_dav_rs.WebDav.Xml.Escape.{escape_xml-injective, escape_xml-IsHarmless}
use fast_dav_rs.WebDav.Multiget.{
  split_at_tag, href_loop, href_elements, given_hrefs, href_loop-href_elements,
  href_elements-injective, append_cancel,
}

abbrev data_tag : Bool → Text
data_tag include_data = if include_data then codes "<C:address-data/>" else []

unfoldable pub build_addressbook_query_body : Text → Bool → Text
build_addressbook_query_body filter_xml include_data =
    codes "<C:addressbook-query xmlns:D=\"DAV:\" xmlns:C=\"urn:ietf:params:xml:ns:carddav\">"
    ++ (codes "<D:prop><D:getetag/>"
        ++ (data_tag include_data
            ++ (codes "</D:prop>" ++ (filter_xml ++ codes "</C:addressbook-query>"))))

unfoldable pub build_addressbook_query_filter : Text → Text → Text
build_addressbook_query_filter prop value =
    codes "<C:filter><C:prop-filter name=\""
    ++ (prop
        ++ (codes "\"><C:text-match collation=\"i;unicode-casemap\" match-type=\"equals\">"
            ++ (escape_xml value ++ codes "</C:text-match></C:prop-filter></C:filter>")))

abbrev pub build_addressbook_query_filter_uid : Text → Text
build_addressbook_query_filter_uid uid = build_addressbook_query_filter (codes "UID") uid

abbrev pub build_addressbook_query_filter_email : Text → Text
build_addressbook_query_filter_email email = build_addressbook_query_filter (codes "EMAIL") email

abbrev pub build_addressbook_query_filter_fn : Text → Text
build_addressbook_query_filter_fn formatted_name =
    build_addressbook_query_filter (codes "FN") formatted_name

-- The loops over the two spellings of a tag; a hit ends them.
abbrev first_of : Text → Text → Text → Option (ℕ × ℕ)
first_of text a b = elim (find_text text a) [
  | some idx ↦ some (idx, length a)
  | none ↦ elim (find_text text b) [ none ↦ none | some idx ↦ some (idx, length b) ]
]

unfoldable pub extract_prop_inner : Text → Option Text
extract_prop_inner xml_body =
    first_of xml_body (codes "<D:prop>") (codes "<d:prop>") >>=? λ (open_tag : ℕ × ℕ).
    let remaining = drop (open_tag.0 + open_tag.1) xml_body in
    first_of remaining (codes "</D:prop>") (codes "</d:prop>") >>=? λ (close_tag : ℕ × ℕ).
    some (take close_tag.0 remaining)

abbrev pub addressbook_type : Text
addressbook_type = codes "<D:resourcetype><D:collection/><C:addressbook/></D:resourcetype>"

abbrev has_resourcetype : Option Text → Bool
has_resourcetype none = false
has_resourcetype (some inner) = contains_text (to_ascii_lowercase inner) (codes "resourcetype")

abbrev trimmed_inner : Option Text → Text
trimmed_inner none = []
trimmed_inner (some inner) = trim inner

-- The properties that are set: never none.
abbrev or_default : Text → Text
or_default [] = addressbook_type
or_default (c ∷ cs) = c ∷ cs

unfoldable pub mkcol_properties : Option Text → Text
mkcol_properties inner =
    or_default ((if has_resourcetype inner then [] else addressbook_type) ++ trimmed_inner inner)

unfoldable pub build_mkcol_addressbook_body : Text → Text
build_mkcol_addressbook_body xml_body =
    codes "<D:mkcol xmlns:D=\"DAV:\" xmlns:C=\"urn:ietf:params:xml:ns:carddav\"><D:set><D:prop>"
    ++ (mkcol_properties (extract_prop_inner xml_body) ++ codes "</D:prop></D:set></D:mkcol>")

-- What stands around the hrefs.
abbrev multiget_head : Bool → Text
multiget_head include_data =
    codes
      "<C:addressbook-multiget xmlns:D=\"DAV:\" xmlns:C=\"urn:ietf:params:xml:ns:carddav\"><D:prop><D:getetag/>"
    ++ (data_tag include_data ++ codes "</D:prop>")

abbrev with_hrefs : Bool → Text × ℕ → Option Text
with_hrefs include_data (href_xml, total) =
    if total == 0
    then none
    else some (multiget_head include_data ++ (href_xml ++ codes "</C:addressbook-multiget>"))

unfoldable pub build_addressbook_multiget_body : List Text → Bool → Option Text
build_addressbook_multiget_body hrefs include_data = with_hrefs include_data (href_loop [] 0 hrefs)

unfoldable pub build_sync_collection_body : Option Text → Option ℕ → Bool → Text
build_sync_collection_body sync_token limit include_data =
    Xml.build_sync_collection_body sync_token limit include_data
      (codes "urn:ietf:params:xml:ns:carddav") (codes "address-data")

-- The body by the hrefs that are not empty.
abbrev of_given : Bool → List Text → Option Text
of_given include_data [] = none
of_given include_data (h ∷ hrefs) =
    some (
      multiget_head include_data
      ++ (href_elements (h ∷ hrefs) ++ codes "</C:addressbook-multiget>"))

multiget_eq :
    (hrefs : List Text) (include_data : Bool)
    → build_addressbook_multiget_body hrefs include_data ≡ of_given include_data (given_hrefs hrefs)
unfolding build_addressbook_multiget_body
multiget_eq hrefs include_data =
    ap (with_hrefs include_data) (href_loop-href_elements [] 0 hrefs)
    ∙ ap (λ n. with_hrefs include_data (href_elements (given_hrefs hrefs), n))
        (zero-add (length (given_hrefs hrefs)))
    ∙ go (given_hrefs hrefs)
  where
    nonzero : (n : ℕ) → (suc n == 0) ≡ false
    nonzero n = ground arith

    go :
        (given : List Text)
        → with_hrefs include_data (href_elements given, length given) ≡ of_given include_data given
    go [] = refl
    go (h ∷ hrefs) = rw (nonzero (length hrefs)) refl

-- There is no body exactly if every href is empty.
pub build_addressbook_multiget_body-none_iff :
    (hrefs : List Text) (include_data : Bool)
    → (build_addressbook_multiget_body hrefs include_data ≡ none) ↔ (given_hrefs hrefs ≡ [])
build_addressbook_multiget_body-none_iff hrefs include_data =
    rw (multiget_eq hrefs include_data) (go (given_hrefs hrefs))
  where
    go : (given : List Text) → (of_given include_data given ≡ none) ↔ (given ≡ [])
    go [] = ((λ h. refl), (λ h. refl))
    go (h ∷ hrefs) = ((λ h. absurd (cc h)), (λ h. absurd (cc h)))

-- Two lists of hrefs with the same body hold the same non-empty hrefs in the same order: no href
-- can pass for another one or for two.
pub build_addressbook_multiget_body-injective :
    (xs ys : List Text) (include_data : Bool)
    → build_addressbook_multiget_body xs include_data
      ≡ build_addressbook_multiget_body ys include_data
    → given_hrefs xs ≡ given_hrefs ys
build_addressbook_multiget_body-injective xs ys include_data e =
    go (given_hrefs xs) (given_hrefs ys)
      (sym (multiget_eq xs include_data) ∙ e ∙ multiget_eq ys include_data)
  where
    go : (g h : List Text) → of_given include_data g ≡ of_given include_data h → g ≡ h
    go [] [] k = refl
    go [] (y ∷ ys) k = absurd (cc k)
    go (x ∷ xs) [] k = absurd (cc k)
    go (x ∷ xs) (y ∷ ys) k =
        href_elements-injective (x ∷ xs) (y ∷ ys) (codes "C:addressbook-multiget>")
          (codes "C:addressbook-multiget>")
          (append_cancel (multiget_head include_data) (ap (λ o. unwrap_or o []) k))

build_addressbook_query_filter-append :
    (prop value rest : Text)
    → build_addressbook_query_filter prop value ++ rest
      ≡ codes "<C:filter><C:prop-filter name=\""
        ++ (prop
            ++ (codes "\"><C:text-match collation=\"i;unicode-casemap\" match-type=\"equals\">"
                ++ (escape_xml value
                    ++ (codes "</C:text-match></C:prop-filter></C:filter>" ++ rest))))
unfolding build_addressbook_query_filter
build_addressbook_query_filter-append prop value rest =
    rw (append_assoc prop, append_assoc (escape_xml value)) refl

-- A filter ends where it should, whatever markup the value holds: where two filters on one property
-- stand at the head of the same text, their values are the same, and so is what follows them.
pub build_addressbook_query_filter-injective :
    (prop value other rest more : Text)
    → build_addressbook_query_filter prop value ++ rest
      ≡ build_addressbook_query_filter prop other ++ more
    → (value ≡ other) × (rest ≡ more)
build_addressbook_query_filter-injective prop value other rest more e =
    let spread =
      sym (build_addressbook_query_filter-append prop value rest)
      ∙ e
      ∙ build_addressbook_query_filter-append prop other more in
    let inner =
      append_cancel
        (codes "\"><C:text-match collation=\"i;unicode-casemap\" match-type=\"equals\">")
        (append_cancel prop (append_cancel (codes "<C:filter><C:prop-filter name=\"") spread)) in
    let apart =
      split_at_tag (escape_xml value) (escape_xml other) (escape_xml-IsHarmless value)
        (escape_xml-IsHarmless other) inner in
    (
      escape_xml-injective value other apart.0,
      append_cancel (codes "/C:text-match></C:prop-filter></C:filter>") apart.1,
    )
