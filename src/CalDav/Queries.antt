-- ===== src/CalDav/Queries.antt =====
-- src/caldav/client.rs: the bodies of the reports.
use mathlib.Core.Option.{map}
use native.Mathlib.Nat.{zero-add}
use fast_dav_rs.Base.{
  ℕ, Bool, false, ◌||◌, ◌≡◌, ◌↔◌, suc, unwrap_or, refl, sym, ap, ◌∙◌, List, [], ◌∷◌, ◌++◌, Option,
  none, some, ◌==◌, is_some, length, if◌then◌else◌, arith,
}
use fast_dav_rs.Base.Text.{Text, codes}
use fast_dav_rs.WebDav.Xml.{escape_xml}
use fast_dav_rs.WebDav.Xml
use fast_dav_rs.WebDav.Multiget.{
  href_loop, href_elements, given_hrefs, href_loop-href_elements, href_elements-injective,
  append_cancel,
}

abbrev data_tag : Bool → Text
data_tag include_data = if include_data then codes "<C:calendar-data/>" else []

abbrev bound_attribute : Text → Option Text → Text
bound_attribute start none = []
bound_attribute start (some value) = start ++ (value ++ codes "\"")

abbrev pub time_range : Option Text → Option Text → Text
time_range start end =
    if is_some start || is_some end
    then codes "<C:time-range"
      ++ (bound_attribute (codes " start=\"") start
          ++ (bound_attribute (codes " end=\"") end ++ codes "/>"))
    else []

-- The body around values that are put in as they are.
abbrev pub query_template : Text → Option Text → Option Text → Bool → Text
query_template component start end include_data =
    codes "<C:calendar-query xmlns:D=\"DAV:\" xmlns:C=\"urn:ietf:params:xml:ns:caldav\">"
    ++ (codes "<D:prop><D:getetag/>"
        ++ (data_tag include_data
            ++ (codes "</D:prop>"
                ++ (codes "<C:filter><C:comp-filter name=\"VCALENDAR\"><C:comp-filter name=\""
                    ++ (component
                        ++ (codes "\">"
                            ++ (time_range start end
                                ++ (codes "</C:comp-filter></C:comp-filter></C:filter>"
                                    ++ codes "</C:calendar-query>"))))))))

unfoldable pub build_calendar_query_body : Text → Option Text → Option Text → Bool → Text
build_calendar_query_body component start end include_data =
    query_template (escape_xml component) (map escape_xml start) (map escape_xml end) include_data

-- What stands around the hrefs.
abbrev multiget_head : Bool → Text
multiget_head include_data =
    codes
      "<C:calendar-multiget xmlns:D=\"DAV:\" xmlns:C=\"urn:ietf:params:xml:ns:caldav\"><D:prop><D:getetag/>"
    ++ (data_tag include_data ++ codes "</D:prop>")

abbrev with_hrefs : Bool → Text × ℕ → Option Text
with_hrefs include_data (href_xml, total) =
    if total == 0
    then none
    else some (multiget_head include_data ++ (href_xml ++ codes "</C:calendar-multiget>"))

unfoldable pub build_calendar_multiget_body : List Text → Bool → Option Text
build_calendar_multiget_body hrefs include_data = with_hrefs include_data (href_loop [] 0 hrefs)

unfoldable pub build_sync_collection_body : Option Text → Option ℕ → Bool → Text
build_sync_collection_body sync_token limit include_data =
    Xml.build_sync_collection_body sync_token limit include_data
      (codes "urn:ietf:params:xml:ns:caldav") (codes "calendar-data")

-- The body by the hrefs that are not empty.
abbrev of_given : Bool → List Text → Option Text
of_given include_data [] = none
of_given include_data (h ∷ hrefs) =
    some
      (multiget_head include_data ++ (href_elements (h ∷ hrefs) ++ codes "</C:calendar-multiget>"))

multiget_eq :
    (hrefs : List Text) (include_data : Bool)
    → build_calendar_multiget_body hrefs include_data ≡ of_given include_data (given_hrefs hrefs)
unfolding build_calendar_multiget_body
multiget_eq hrefs include_data =
    ap (with_hrefs include_data) (href_loop-href_elements [] 0 hrefs)
    ∙ ap (λ n. with_hrefs include_data (href_elements (given_hrefs hrefs), n))
        (zero-add (length (given_hrefs hrefs)))
    ∙ go (given_hrefs hrefs)
  where
    nonzero : (n : ℕ) → (suc n == 0) ≡ false
    nonzero n = ground arith

    go :
        (given : List Text)
        → with_hrefs include_data (href_elements given, length given) ≡ of_given include_data given
    go [] = refl
    go (h ∷ hrefs) = rw (nonzero (length hrefs)) refl

-- There is no body exactly if every href is empty.
pub build_calendar_multiget_body-none_iff :
    (hrefs : List Text) (include_data : Bool)
    → (build_calendar_multiget_body hrefs include_data ≡ none) ↔ (given_hrefs hrefs ≡ [])
build_calendar_multiget_body-none_iff hrefs include_data =
    rw (multiget_eq hrefs include_data) (go (given_hrefs hrefs))
  where
    go : (given : List Text) → (of_given include_data given ≡ none) ↔ (given ≡ [])
    go [] = ((λ h. refl), (λ h. refl))
    go (h ∷ hrefs) = ((λ h. absurd (cc h)), (λ h. absurd (cc h)))

-- Two lists of hrefs with the same body hold the same non-empty hrefs in the same order: no href
-- can pass for another one or for two.
pub build_calendar_multiget_body-injective :
    (xs ys : List Text) (include_data : Bool)
    → build_calendar_multiget_body xs include_data ≡ build_calendar_multiget_body ys include_data
    → given_hrefs xs ≡ given_hrefs ys
build_calendar_multiget_body-injective xs ys include_data e =
    go (given_hrefs xs) (given_hrefs ys)
      (sym (multiget_eq xs include_data) ∙ e ∙ multiget_eq ys include_data)
  where
    go : (g h : List Text) → of_given include_data g ≡ of_given include_data h → g ≡ h
    go [] [] k = refl
    go [] (y ∷ ys) k = absurd (cc k)
    go (x ∷ xs) [] k = absurd (cc k)
    go (x ∷ xs) (y ∷ ys) k =
        href_elements-injective (x ∷ xs) (y ∷ ys) (codes "C:calendar-multiget>")
          (codes "C:calendar-multiget>")
          (append_cancel (multiget_head include_data) (ap (λ o. unwrap_or o []) k))
