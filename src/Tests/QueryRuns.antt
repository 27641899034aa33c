-- ===== src/Tests/QueryRuns.antt =====
-- Runs of escaping, validation and the CalDAV queries. The server of the runs counts its requests.
use fast_dav_rs.Base.{arith, ℕ, suc, ◌≡◌, ◌↔◌, refl, true, false, none, some, [], ◌∷◌, All}
use fast_dav_rs.Base.Result.{Error, ok, err, transport_failed}
use fast_dav_rs.Base.Text.{codes}
use fast_dav_rs.CalDav.Client.{calendar_query_timerange}
use fast_dav_rs.CalDav.Queries.{
  build_calendar_multiget_body, build_calendar_multiget_body-injective,
  build_calendar_multiget_body-none_iff,
}
use fast_dav_rs.CalDav.Validation.{IsQuery, calendar_query_timerange-rejects}
use fast_dav_rs.WebDav.Headers.{entries_api}
use fast_dav_rs.WebDav.Multiget.{href_loop, given_hrefs}
use fast_dav_rs.WebDav.Server.{Server}
use fast_dav_rs.WebDav.Xml.{escape_xml, validate_component_name, validate_utc_datetime}
use fast_dav_rs.WebDav.Xml.Datetime.{IsUtcDatetime, validate_utc_datetime_iff}
use fast_dav_rs.WebDav.Xml.Escape.{
  read_text, read_text-escape_xml, IsHarmless, escape_xml-IsHarmless,
}
use fast_dav_rs.WebDav.Xml.Validate.{IsComponentName, IsComponentChar, validate_component_name_iff}

read_text-escape_xml_example :
    read_text none (escape_xml (codes "a<b>&\"'")) ≡ some (codes "a<b>&\"'")
read_text-escape_xml_example = read_text-escape_xml (codes "a<b>&\"'")

escape_xml-IsHarmless_example : All IsHarmless (escape_xml (codes "a<b>&\"'"))
escape_xml-IsHarmless_example = escape_xml-IsHarmless (codes "a<b>&\"'")

validate_component_name_iff_example :
    (validate_component_name (codes "X-CUSTOM") ≡ ok tt) ↔ IsComponentName (codes "X-CUSTOM")
validate_component_name_iff_example = validate_component_name_iff (codes "X-CUSTOM")

validate_utc_datetime_iff_example :
    (validate_utc_datetime (codes "20240101T000000Z") ≡ ok tt)
    ↔ IsUtcDatetime (codes "20240101T000000Z")
validate_utc_datetime_iff_example = validate_utc_datetime_iff (codes "20240101T000000Z")

abbrev counting : Server entries_api
counting = record {
  World = ℕ;
  propfind = λ w path depth body. (suc w, err transport_failed);
  report = λ w path depth body. (suc w, ok (record { status = 207; headers = []; body = [] }));
  read = λ body. [];
  unescape = some;
}

refused_space : ¬ IsComponentChar b' '
refused_space h = omega (arith, h)

no-IsQuery : ¬ IsQuery (codes "V EVENT") none none
no-IsQuery (named, start, end) = refused_space named.1.1.0

calendar_query_timerange-rejects_example :
    (e : Error) × (calendar_query_timerange entries_api counting 0
        (codes "/work/")
        (codes "V EVENT")
        none
        none
        true
      ≡ (0, err e))
calendar_query_timerange-rejects_example =
    calendar_query_timerange-rejects entries_api counting 0 (codes "/work/") (codes "V EVENT") none
      none true no-IsQuery

build_calendar_multiget_body-injective_example :
    given_hrefs (codes "/a" ∷ [] ∷ []) ≡ given_hrefs ([] ∷ codes "/a" ∷ [])
unfolding build_calendar_multiget_body href_loop
build_calendar_multiget_body-injective_example =
    build_calendar_multiget_body-injective (codes "/a" ∷ [] ∷ []) ([] ∷ codes "/a" ∷ []) true refl

build_calendar_multiget_body-none_iff_example :
    (build_calendar_multiget_body ([] ∷ codes "/a" ∷ []) false ≡ none)
    ↔ (given_hrefs ([] ∷ codes "/a" ∷ []) ≡ [])
build_calendar_multiget_body-none_iff_example =
    build_calendar_multiget_body-none_iff ([] ∷ codes "/a" ∷ []) false
