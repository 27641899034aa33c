-- ===== src/CalDav/Client.antt =====
-- The operations of src/caldav/client.rs that send a request and read its multistatus answer.
use fast_dav_rs.Base.{
  ℕ, Bool, List, [], ◌∷◌, ◌++◌, Option, none, some, find, find_map, not, is_empty, if◌then◌else◌,
}
use fast_dav_rs.Base.Result.{Result, ok, err, ◌>>=◌, ◌>>◌, request_failed}
use fast_dav_rs.Base.Sort.{sort_by, dedup}
use fast_dav_rs.Base.Text.{Text, Bytes, codes}
use fast_dav_rs.WebDav.Headers.{HeaderApi}
use fast_dav_rs.WebDav.Types.{Depth}
use fast_dav_rs.WebDav.Server.{Server, Reply}
use fast_dav_rs.WebDav.Client.Http.{is_success}
use fast_dav_rs.WebDav.Xml.{validate_component_name, validate_utc_datetime}
use fast_dav_rs.CalDav.Types.{DavItem, CalendarInfo, CalendarObject, SyncResponse}
use fast_dav_rs.CalDav.Streaming.{ParseResult, parse_multistatus_bytes_with, push_item}
use fast_dav_rs.CalDav.Mapping.{map_calendar_list, map_calendar_objects, map_sync_response}
use fast_dav_rs.CalDav.Queries.{
  build_calendar_query_body, build_calendar_multiget_body, build_sync_collection_body,
}

abbrev pub validate_bound : Option Text → Result (Unit {0})
validate_bound none = ok tt
validate_bound (some value) = validate_utc_datetime value

-- The checks at the start of `calendar_query_timerange`.
unfoldable pub validate_query : Text → Option Text → Option Text → Result (Unit {0})
validate_query component start end =
    validate_component_name component >> validate_bound start >> validate_bound end

unfoldable pub first_principal : List DavItem → Option Text
first_principal = find_map (λ item. find (λ href. not (is_empty href)) item.current_user_principal)

-- The loop that gathers the home sets.
unfoldable pub collect_homes : List Text → List DavItem → List Text
collect_homes homes [] = homes
collect_homes homes (item ∷ items) = collect_homes (homes ++ item.calendar_home_set) items

unfoldable pub sorted_homes : List DavItem → List Text
sorted_homes items = dedup (sort_by (λ home. home) (collect_homes [] items))

module _ (api : HeaderApi) (server : Server api) where
  open server use {World, propfind, report, read, unescape}

  unfoldable pub parse_multistatus_bytes : Bytes → Result (ParseResult (List DavItem))
  parse_multistatus_bytes body = parse_multistatus_bytes_with unescape push_item [] (read body)

  abbrev pub read_reply {ℓ} :
      {A : Type ℓ} → (Reply api → ParseResult (List DavItem) → A) → Reply api → Result A
  read_reply f reply =
      if is_success reply.status
      then (do parsed ← parse_multistatus_bytes reply.body; ok (f reply parsed))
      else err (request_failed reply.status)

  -- What is made of the answer to a request.
  abbrev pub conclude {ℓ} :
      {A : Type ℓ}
      → (Reply api → ParseResult (List DavItem) → A)
      → World × Result (Reply api)
      → World × Result A
  conclude f (w, answer) = (w, answer >>= read_reply f)

  unfoldable pub discover_current_user_principal : World → World × Result (Option Text)
  discover_current_user_principal w =
      conclude (λ reply parsed. first_principal parsed.items)
        (propfind w [] Depth.zero (
          codes
            "\n<D:propfind xmlns:D=\"DAV:\">\n  <D:prop>\n    <D:current-user-principal/>\n  </D:prop>\n</D:propfind>\n"))

  unfoldable pub discover_calendar_home_set : World → Text → World × Result (List Text)
  discover_calendar_home_set w principal_path =
      conclude (λ reply parsed. sorted_homes parsed.items)
        (propfind w principal_path Depth.zero (
          codes
            "\n<D:propfind xmlns:D=\"DAV:\" xmlns:C=\"urn:ietf:params:xml:ns:caldav\">\n  <D:prop>\n    <C:calendar-home-set/>\n  </D:prop>\n</D:propfind>\n"))

  unfoldable pub list_calendars : World → Text → World × Result (List CalendarInfo)
  list_calendars w home_set_path =
      conclude (λ reply parsed. map_calendar_list parsed.items)
        (propfind w home_set_path Depth.one (
          codes
            "\n<D:propfind xmlns:D=\"DAV:\" xmlns:C=\"urn:ietf:params:xml:ns:caldav\" xmlns:A=\"http://apple.com/ns/ical/\">\n  <D:prop>\n    <D:displayname/>\n    <C:calendar-description/>\n    <C:calendar-timezone/>\n    <C:calendar-color/>\n    <A:calendar-color/>\n    <C:supported-calendar-component-set/>\n    <D:getetag/>\n    <D:resourcetype/>\n    <D:sync-token/>\n  </D:prop>\n</D:propfind>\n"))

  abbrev pub conclude_objects : World × Result (Reply api) → World × Result (List CalendarObject)
  conclude_objects = conclude (λ reply parsed. map_calendar_objects parsed.items)

  unfoldable pub calendar_query_timerange :
      World → Text → Text → Option Text → Option Text → Bool → World × Result (List CalendarObject)
  calendar_query_timerange w calendar_path component start end include_data =
      elim (validate_query component start end) [
        | err e ↦ (w, err e)
        | ok valid ↦ conclude_objects (
            report w calendar_path Depth.one
              (build_calendar_query_body component start end include_data))
      ]

  unfoldable pub calendar_multiget :
      World → Text → List Text → Bool → World × Result (List CalendarObject)
  calendar_multiget w calendar_path hrefs include_data =
      elim (build_calendar_multiget_body hrefs include_data) [
        | none ↦ (w, ok [])
        | some body ↦ conclude_objects (report w calendar_path Depth.one body)
      ]

  unfoldable pub sync_collection :
      World → Text → Option Text → Option ℕ → Bool → World × Result SyncResponse
  sync_collection w calendar_path sync_token limit include_data =
      conclude (λ reply parsed. map_sync_response api reply.headers parsed.items parsed.sync_token)
        (report w calendar_path Depth.one
          (build_sync_collection_body sync_token limit include_data))
