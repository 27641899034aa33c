-- ===== src/CalDav/Mapping.antt =====
-- src/caldav/client.rs: the functions that turn parsed items into results.
pub mod Laws
use fast_dav_rs.Base.{
  ℕ, Bool, true, false, not, ◌&&◌, ◌||◌, List, [], ◌∷◌, ◌++◌, Option, none, some, ◌==◌, is_some,
  is_none, is_empty, or_option, ◌>>=?◌, if◌then◌else◌,
}
use fast_dav_rs.Base.Sort.{sort_by}
use fast_dav_rs.Base.Text.{Text, codes, trim}
use fast_dav_rs.WebDav.Headers.{HeaderApi}
use fast_dav_rs.WebDav.Types.{http_status_code}
use fast_dav_rs.CalDav.Types.{DavItem, CalendarInfo, CalendarObject, SyncItem, SyncResponse}

-- `.map(|t| t.trim().to_string()).filter(|t| !t.is_empty())`
abbrev trimmed : Option Text → Option Text
trimmed none = none
trimmed (some t) = if is_empty (trim t) then none else some (trim t)

-- What the loop of `map_calendar_list` pushes for a calendar.
unfoldable pub calendar_info : DavItem → CalendarInfo
calendar_info item = record {
  href = item.href;
  displayname = item.displayname;
  description = trimmed item.calendar_description;
  timezone = trimmed item.calendar_timezone;
  color = item.calendar_color;
  etag = item.etag;
  sync_token = item.sync_token;
  supported_components = item.supported_components;
}

unfoldable pub collect_calendars : List CalendarInfo → List DavItem → List CalendarInfo
collect_calendars calendars [] = calendars
collect_calendars calendars (item ∷ items) =
    collect_calendars (if item.is_calendar then calendars ++ calendar_info item ∷ [] else calendars)
      items

unfoldable pub map_calendar_list : List DavItem → List CalendarInfo
map_calendar_list items = sort_by (λ c. c.href) (collect_calendars [] items)

unfoldable pub calendar_object : DavItem → CalendarObject
calendar_object item = record {
  href = item.href;
  etag = item.etag;
  calendar_data = item.calendar_data;
  status = item.status;
}

unfoldable pub collect_objects : List CalendarObject → List DavItem → List CalendarObject
collect_objects out [] = out
collect_objects out (item ∷ items) = collect_objects (out ++ calendar_object item ∷ []) items

unfoldable pub map_calendar_objects : List DavItem → List CalendarObject
map_calendar_objects = collect_objects []

-- `matches!(code, Some(404) | Some(410))`
abbrev pub gone : Option ℕ → Bool
gone none = false
gone (some code) = code == 404 || code == 410

unfoldable pub is_deleted_status : Option Text → Bool
is_deleted_status status = gone (status >>=? http_status_code)

-- The test `is_collection` of `map_sync_response`.
unfoldable pub is_sync_collection : DavItem → Bool
is_sync_collection item =
    item.is_collection
    || (is_some item.sync_token && is_none item.etag && is_none item.calendar_data)

unfoldable pub sync_item : DavItem → SyncItem
sync_item item = record {
  href = item.href;
  etag = item.etag;
  calendar_data = item.calendar_data;
  status = item.status;
  is_deleted = is_deleted_status item.status;
}

-- A token of an item is taken only while none is known.
unfoldable pub capture : Option Text → Option Text → Option Text
capture known token = if is_some token && is_none known then token else known

-- The loop of `map_sync_response` over its two variables.
unfoldable pub sync_loop : Option Text → List SyncItem → List DavItem → SyncResponse
sync_loop sync_token out [] = record { sync_token = sync_token; items = out }
sync_loop sync_token out (item ∷ items) =
    sync_loop (capture sync_token item.sync_token)
      (if is_sync_collection item then out else out ++ sync_item item ∷ []) items

module _ (api : HeaderApi) where
  open api use {HeaderMap, get, to_str}

  -- The `Sync-Token` header, if it is there and readable.
  abbrev pub header_token : HeaderMap → Option Text
  header_token headers = get headers (codes "sync-token") >>=? to_str

  unfoldable pub map_sync_response : HeaderMap → List DavItem → Option Text → SyncResponse
  map_sync_response headers items top_level_sync_token =
      sync_loop (or_option top_level_sync_token (header_token headers)) [] items
