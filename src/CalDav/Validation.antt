-- ===== src/CalDav/Validation.antt =====
-- The validation in `calendar_query_timerange` of src/caldav/client.rs.
use mathlib.Core.Option.{map}
use mathlib.Core.List.{append_assoc}
use mathlib.Core.Path.{ap₂}
use fast_dav_rs.Base.{
  Bool, true, false, [], ◌++◌, ◌≡◌, ◌↔◌, refl, ap, ◌∙◌, Option, none, some, List, inl, inr,
}
use fast_dav_rs.Base.Result.{Error, Result, ok, err, Result-cases}
use fast_dav_rs.Base.Text.{Text, codes}
use fast_dav_rs.WebDav.Headers.{HeaderApi}
use fast_dav_rs.WebDav.Types.{Depth}
use fast_dav_rs.WebDav.Server.{Server}
use fast_dav_rs.WebDav.Xml.{escape_xml, validate_component_name}
use fast_dav_rs.WebDav.Xml.Validate.{
  IsComponentName, validate_component_name_iff, escape_xml-component_chars,
}
use fast_dav_rs.WebDav.Xml.Datetime.{
  IsUtcDatetime, validate_utc_datetime_iff, escape_xml-IsUtcDatetime,
}
use fast_dav_rs.CalDav.Types.{CalendarObject}
use fast_dav_rs.CalDav.Queries.{build_calendar_query_body, query_template, time_range}
use fast_dav_rs.CalDav.Client.{
  validate_bound, validate_query, calendar_query_timerange, conclude_objects,
}

-- A bound that is given is an iCalendar date-time in UTC.
abbrev pub IsBound : Option Text → Type 0
IsBound none = Unit
IsBound (some value) = IsUtcDatetime value

abbrev pub IsQuery : Text → Option Text → Option Text → Type 0
IsQuery component start end = IsComponentName component × IsBound start × IsBound end

validate_bound_iff : (bound : Option Text) → (validate_bound bound ≡ ok tt) ↔ IsBound bound
validate_bound_iff none = ((λ h. tt), (λ h. refl))
validate_bound_iff (some value) = validate_utc_datetime_iff value

validate_query_iff :
    (component : Text) (start end : Option Text)
    → (validate_query component start end ≡ ok tt) ↔ IsQuery component start end
unfolding validate_query
validate_query_iff component start end = (forth, back)
  where
    forth : validate_query component start end ≡ ok tt → IsQuery component start end
    forth h = elim (Result-cases (validate_component_name component)) [
      | inl (e, failed) ↦ absurd (cc (rw failed at h))
      | inr (a, named) ↦ elim (Result-cases (validate_bound start)) [
        | inl (e, failed) ↦ absurd (cc (rw failed at (rw named at h)))
        | inr (b, started) ↦ (
          (validate_component_name_iff component).0 named,
          (validate_bound_iff start).0 started,
          (validate_bound_iff end).0 (rw started at (rw named at h)),
        )
      ]
    ]

    back : IsQuery component start end → validate_query component start end ≡ ok tt
    back (c, s, e) =
        rw ((validate_component_name_iff component).1 c)
          (rw ((validate_bound_iff start).1 s) ((validate_bound_iff end).1 e))

escape_bound : (bound : Option Text) → IsBound bound → map escape_xml bound ≡ bound
escape_bound none h = refl
escape_bound (some value) h = ap some (escape_xml-IsUtcDatetime value h)

build_calendar_query_body-IsQuery :
    (component : Text) (start end : Option Text) (include_data : Bool)
    → IsQuery component start end
    → build_calendar_query_body component start end include_data
      ≡ query_template component start end include_data
unfolding build_calendar_query_body
build_calendar_query_body-IsQuery component start end include_data (c, s, e) =
    ap (λ x. query_template x (map escape_xml start) (map escape_xml end) include_data)
      (escape_xml-component_chars component c.1)
    ∙ ap₂ (λ x y. query_template component x y include_data) (escape_bound start s)
        (escape_bound end e)

abbrev asked_data : Bool → Text
asked_data true = codes "<C:calendar-data/>"
asked_data false = []

abbrev asked_range : Option Text → Option Text → Text
asked_range none none = []
asked_range (some s) none = codes "<C:time-range start=\"" ++ (s ++ codes "\"/>")
asked_range none (some e) = codes "<C:time-range end=\"" ++ (e ++ codes "\"/>")
asked_range (some s) (some e) =
    codes "<C:time-range start=\"" ++ (s ++ (codes "\" end=\"" ++ (e ++ codes "\"/>")))

-- The query of RFC 4791 for components with the name, around an element for the bounds.
abbrev query_around : Text → Text → Bool → Text
query_around component range include_data =
    codes
      "<C:calendar-query xmlns:D=\"DAV:\" xmlns:C=\"urn:ietf:params:xml:ns:caldav\"><D:prop><D:getetag/>"
    ++ (asked_data include_data
        ++ (codes "</D:prop><C:filter><C:comp-filter name=\"VCALENDAR\"><C:comp-filter name=\""
            ++ (component
                ++ (codes "\">"
                    ++ (range
                        ++ codes
                            "</C:comp-filter></C:comp-filter></C:filter></C:calendar-query>")))))

abbrev pub asked : Text → Option Text → Option Text → Bool → Text
asked component start end = query_around component (asked_range start end)

time_range-asked : (start end : Option Text) → time_range start end ≡ asked_range start end
time_range-asked none none = refl
time_range-asked (some s) none =
    ap (λ x. codes "<C:time-range start=\"" ++ x) (append_assoc s (codes "\"") (codes "/>"))
time_range-asked none (some e) =
    ap (λ x. codes "<C:time-range end=\"" ++ x) (append_assoc e (codes "\"") (codes "/>"))
time_range-asked (some s) (some e) =
    ap (λ x. codes "<C:time-range start=\"" ++ x)
      (append_assoc s (codes "\"") (codes " end=\"" ++ ((e ++ codes "\"") ++ codes "/>"))
        ∙ ap (λ x. s ++ (codes "\" end=\"" ++ x)) (append_assoc e (codes "\"") (codes "/>")))

query_template-asked :
    (component : Text) (start end : Option Text) (include_data : Bool)
    → query_template component start end include_data ≡ asked component start end include_data
query_template-asked component start end true =
    ap (λ r. query_around component r true) (time_range-asked start end)
query_template-asked component start end false =
    ap (λ r. query_around component r false) (time_range-asked start end)

module _ (api : HeaderApi) (server : Server api) (w : server.World) (path component : Text)
    (start end : Option Text) (include_data : Bool) where
  abbrev pub run : server.World × Result (List CalendarObject)
  run = calendar_query_timerange api server w path component start end include_data

  -- A query whose component is a name and whose bounds are date-times is reported once.
  pub calendar_query_timerange-asked :
      IsQuery component start end
      → run
        ≡ conclude_objects api server
            (server.report w path Depth.one (asked component start end include_data))
  unfolding calendar_query_timerange
  calendar_query_timerange-asked h =
      rw ((validate_query_iff component start end).1 h, calendar_query_timerange)
        (ap (λ body. conclude_objects api server (server.report w path Depth.one body))
          (build_calendar_query_body-IsQuery component start end include_data h
            ∙ query_template-asked component start end include_data))

  -- Any other query is an error, and nothing is sent: the world stays as it is.
  pub calendar_query_timerange-rejects :
      ¬ (IsQuery component start end) → (e : Error) × (run ≡ (w, err e))
  unfolding calendar_query_timerange
  calendar_query_timerange-rejects n = elim (Result-cases (validate_query component start end)) [
    | inl (e, failed) ↦ (e, rw (failed, calendar_query_timerange) refl)
    | inr (valid, accepted) ↦ absurd (n ((validate_query_iff component start end).0 accepted))
  ]
