-- ===== src/CalDav/Reads.antt =====
-- The operations of src/caldav/client.rs over the client of src/webdav/client.rs.
use fast_dav_rs.Base.{refl, inl, inr, Bool, List, Option, Option-cases, ℕ}
use fast_dav_rs.Base.Result.{Result-cases}
use fast_dav_rs.Base.Text.{Text, Bytes, codes}
use fast_dav_rs.WebDav.Headers.{HeaderApi}
use fast_dav_rs.WebDav.Reader.{Reading}
use fast_dav_rs.WebDav.Server.{Server}
use fast_dav_rs.Common.Compression.Codec.{CodecApi}
use fast_dav_rs.Common.Compression.Weights.{F32Api}
use fast_dav_rs.WebDav.Client.Http.{HttpApi}
use fast_dav_rs.WebDav.Client.{WebDavClient, Session}
use fast_dav_rs.WebDav.Client.Trace.{Adds, Adds-same}
use fast_dav_rs.WebDav.Client.Serve.{session_server, IsRead, query-IsRead}
use fast_dav_rs.CalDav.Queries.{build_calendar_multiget_body}
use fast_dav_rs.CalDav.Client.{
  validate_query, discover_current_user_principal, discover_calendar_home_set, list_calendars,
  calendar_query_timerange, calendar_multiget, sync_collection,
}

module _ (api : HeaderApi) (http : HttpApi api) (codec : CodecApi) (floats : F32Api)
    (client : WebDavClient api http) (read : Bytes → List Reading)
    (unescape : Text → Option Text) where
  abbrev server : Server api
  server = session_server api http codec floats client read unescape

  -- Between the sessions, the client sent requests that read.
  abbrev pub Reads : Session api http → Session api http → Type 0
  Reads = Adds api http (IsRead api http codec floats client)

  unasked : (s : Session api http) → Reads s s
  unasked s = Adds-same api http (IsRead api http codec floats client) s s refl

  calendar_query_timerange-Reads :
      (s : Session api http) (path component : Text) (start end : Option Text) (include_data : Bool)
      → Reads s (calendar_query_timerange api server s path component start end include_data).0
  unfolding calendar_query_timerange
  calendar_query_timerange-Reads s path component start end include_data =
      elim (Result-cases (validate_query component start end)) [
        | inl (e, refused) ↦ rw (refused, calendar_query_timerange) (unasked s)
        | inr (valid, accepted) ↦
            rw (accepted, calendar_query_timerange)
              (query-IsRead api http codec floats client (codes "REPORT") (inr refl) s _ _ _)
      ]

  calendar_multiget-Reads :
      (s : Session api http) (path : Text) (hrefs : List Text) (include_data : Bool)
      → Reads s (calendar_multiget api server s path hrefs include_data).0
  unfolding calendar_multiget
  calendar_multiget-Reads s path hrefs include_data =
      elim (Option-cases (build_calendar_multiget_body hrefs include_data)) [
        | inl n ↦ rw (n, calendar_multiget) (unasked s)
        | inr (body, k) ↦
            rw (k, calendar_multiget)
              (query-IsRead api http codec floats client (codes "REPORT") (inr refl) s _ _ _)
      ]

  module _ (s : Session api http) (path : Text) where
    -- The session behind each of the operations.
    pub record ReadsOnly : Type 0 where
      pub principal : Reads s (discover_current_user_principal api server s).0
      pub homes : Reads s (discover_calendar_home_set api server s path).0
      pub calendars : Reads s (list_calendars api server s path).0
      pub timerange :
          (component : Text) (start end : Option Text) (include_data : Bool)
          → Reads s (calendar_query_timerange api server s path component start end include_data).0
      pub multiget :
          (hrefs : List Text) (include_data : Bool)
          → Reads s (calendar_multiget api server s path hrefs include_data).0
      pub synced :
          (sync_token : Option Text) (limit : Option ℕ) (include_data : Bool)
          → Reads s (sync_collection api server s path sync_token limit include_data).0

    -- The operations that discover, list, query and synchronise calendars change nothing on the
    -- server: every request that they send, the probe and a repetition included, is a `PROPFIND` or
    -- a `REPORT`.
    pub operations-ReadsOnly : ReadsOnly
    unfolding discover_current_user_principal discover_calendar_home_set list_calendars
        sync_collection
    operations-ReadsOnly = record {
      principal = query-IsRead api http codec floats client (codes "PROPFIND") (inl refl) s _ _ _;
      homes = query-IsRead api http codec floats client (codes "PROPFIND") (inl refl) s _ _ _;
      calendars = query-IsRead api http codec floats client (codes "PROPFIND") (inl refl) s _ _ _;
      timerange = calendar_query_timerange-Reads s path;
      multiget = calendar_multiget-Reads s path;
      synced = λ token limit include_data.
          query-IsRead api http codec floats client (codes "REPORT") (inr refl) s _ _ _;
    }
