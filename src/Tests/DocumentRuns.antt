-- ===== src/Tests/DocumentRuns.antt =====
-- Runs of the CalDAV parser and of a synchronisation on the document of a calendar.
use fast_dav_rs.Base.{
  Option, ◌≡◌, refl, true, none, some, List, [], ◌∷◌, All, map, or_option, is_empty, false, ℕ, leb,
  if◌then◌else◌, Bool-cases, inl, inr,
}
use fast_dav_rs.Base.Result.{Result, ok}
use fast_dav_rs.Base.Text.{
  Text, Bytes, is_whitespace, trim_start, trim_end, trim, codes, starts_with, text_eq,
}
use fast_dav_rs.Base.Text.Split.{split_once}
use fast_dav_rs.Base.Utf8.{from_utf8, as_bytes}
use fast_dav_rs.CalDav.Client.{sync_collection, calendar_query_timerange}
use fast_dav_rs.CalDav.EndToEnd.{
  reported_as, object_of, sync_collection-document, calendar_query_timerange-document,
}
use fast_dav_rs.CalDav.Validation.{IsQuery, asked}
use fast_dav_rs.WebDav.Xml.Validate.{validate_component_name_iff}
use fast_dav_rs.WebDav.Xml.Datetime.{validate_utc_datetime_iff}
use fast_dav_rs.WebDav.Xml.{validate_component_name, validate_utc_datetime, structurally_valid}
use fast_dav_rs.CalDav.Mapping.{header_token}
use fast_dav_rs.CalDav.Queries.{build_sync_collection_body}
use fast_dav_rs.CalDav.Streaming.{push_item, parse_multistatus_bytes_with}
use fast_dav_rs.CalDav.Streaming.Documents.{
  Member, found, bare, characters, reference, item_of, IsRead, IsPlain, IsMember, IsPlainOption,
  IsBlank, document, parse_multistatus_bytes_with-document,
}
use fast_dav_rs.Common.Compression.{
  add_accept_encoding, add_content_encoding, compress_payload, decompress_body, detect_encodings,
  as_str,
}
use fast_dav_rs.Common.Compression.Codec.{marking_codec}
use fast_dav_rs.Common.Compression.Preference.{detect_request_compression_preference}
use fast_dav_rs.Common.Compression.Weights.{whole_weights}
use fast_dav_rs.WebDav.Client.{
  build_uri, is_auto, negotiate, probe_request_compression_support, probe_request, probe_outcome,
  request_within, prepare_request_body, encode_body, resolve_request_encoding,
  handle_request_compression_outcome, normalize_decompressed_headers, WebDavClient, Session, auto,
}
use fast_dav_rs.WebDav.Client.Http.{Response, replied, text_http}
use fast_dav_rs.WebDav.Client.Send.{
  outgoing, respond, answered, dispatch, send_round, send_loop, send_stream, aggregate, send,
}
use fast_dav_rs.WebDav.Client.Serve.{session_server}
use fast_dav_rs.WebDav.Client.Uri.{target_path, combine_paths, trim_slashes}
use fast_dav_rs.WebDav.Client.Verbs.{query}
use fast_dav_rs.WebDav.Headers.{get_entry, remove_entry, visible_text, entries_api}
use fast_dav_rs.WebDav.Server.{Server, Reply}
use fast_dav_rs.WebDav.Xml.Escape.{read_text}
use fast_dav_rs.WebDav.Types.{depth_as_str, Depth}

-- The data of the first object come in two texts, of which the second is blank, with a reference
-- between them; the third object is gone.
abbrev members : List Member
members =
    found (record {
      href = codes "/1.ics";
      etag = codes "\"v1\"";
      data_pieces = characters (codes "BEGIN:") ∷ reference ∷ characters (codes " ") ∷ [];
      status = some (codes "HTTP/1.1 200 OK");
    })
    ∷ found
        (record { href = codes "/2.ics"; etag = codes "\"v2\""; data_pieces = []; status = none })
    ∷ bare (codes "/3.ics") (codes "HTTP/1.1 404 Not Found")
    ∷ []

-- The bytes of an ASCII text are its codes.
abbrev ascii : Text → Bytes
ascii t = t

abbrev read :
    {t : Text} → from_utf8 t ≡ some t → read_text none t ≡ some t → IsRead (read_text none) ascii t
read {t} u r = record { raw = t; utf8 = u; unescaped = r }

abbrev plain :
    {t : Text}
    → from_utf8 t ≡ some t
    → read_text none t ≡ some t
    → is_empty t ≡ false
    → trim t ≡ t
    → IsPlain (read_text none) ascii t
plain u r n trimmed = record { read = read u r; nonempty = n; trimmed = trimmed }

-- Two spaces before the tags within the responses, and nothing before the others.
abbrev indent : ℕ → Option Text
indent depth = if leb 2 depth then some (codes "  ") else none

are_blanks : (depth : ℕ) → IsBlank (read_text none) ascii (indent depth)
unfolding from_utf8 read_text is_whitespace trim_start trim_end trim
are_blanks depth = elim (Bool-cases (leb 2 depth)) [
  | inl deep ↦ rw deep (read refl refl, refl, refl)
  | inr high ↦ rw high tt
]

are_members : All (IsMember (read_text none) ascii) members
unfolding from_utf8 read_text is_whitespace trim_start trim_end trim
are_members = (
  record {
    href = plain refl refl refl refl;
    etag = plain refl refl refl refl;
    data_pieces = ((read refl refl, refl), (tt, ((read refl refl, refl), tt)));
    status = plain refl refl refl refl;
  },
  (
    record {
      href = plain refl refl refl refl;
      etag = plain refl refl refl refl;
      data_pieces = tt;
      status = tt;
    },
    ((plain refl refl refl refl, plain refl refl refl refl), tt),
  ),
)

is_token : IsPlainOption (read_text none) ascii (some (codes "t1"))
unfolding from_utf8 read_text is_whitespace trim_start trim_end trim
is_token = plain refl refl refl refl

parse_multistatus_bytes_with-document_example :
    parse_multistatus_bytes_with
      (read_text none)
      push_item
      []
      (document ascii indent members (some (codes "t1")))
    ≡ ok (record { items = map item_of members; sync_token = some (codes "t1") })
parse_multistatus_bytes_with-document_example =
    parse_multistatus_bytes_with-document (read_text none) ascii indent members (some (codes "t1"))
      are_blanks are_members is_token

abbrev client : WebDavClient entries_api text_http
client = record {
  base = codes "/dav/";
  auth_header = none;
  default_timeout = 20;
  request_compression_mode = auto;
}

abbrev response : Response entries_api
response = record { status = 207; headers = []; body = some (codes "...") }

-- The server takes the probe and answers the report with these objects.
abbrev session : Session entries_api text_http
session = record {
  negotiated = none;
  sent = [];
  answers = replied 1 response ∷ replied 1 response ∷ [];
}

abbrev server : Server entries_api
server =
    session_server entries_api text_http marking_codec whole_weights client
      (λ body. document ascii indent members (some (codes "t1"))) (read_text none)

abbrev reply : Reply entries_api
reply = record { status = 207; headers = []; body = codes "..." }

abbrev asked_sync : Session entries_api text_http × Result (Reply entries_api)
asked_sync =
    server.report session (codes "cal/") Depth.one (build_sync_collection_body none none true)

reported : asked_sync ≡ (asked_sync.0, ok reply)
unfolding query send send_stream send_loop send_round dispatch answered respond outgoing
    prepare_request_body negotiate probe_request_compression_support probe_request probe_outcome
    request_within encode_body resolve_request_encoding handle_request_compression_outcome is_auto
    build_uri target_path combine_paths trim_slashes split_once starts_with add_accept_encoding
    add_content_encoding compress_payload decompress_body detect_encodings as_str get_entry
    remove_entry visible_text depth_as_str aggregate normalize_decompressed_headers text_eq
    detect_request_compression_preference
reported = refl

sync_collection-document_example :
    sync_collection entries_api server session (codes "cal/") none none true ≡ (
      asked_sync.0,
      ok (record {
        sync_token = or_option (some (codes "t1")) (header_token entries_api reply.headers);
        items = map reported_as members;
      }),
    )
sync_collection-document_example =
    sync_collection-document entries_api server ascii indent session asked_sync.0 (codes "cal/")
      none none true members (some (codes "t1")) reply
      (record {
        reported = reported;
        successful = refl;
        described = refl;
        blanks = are_blanks;
        plain = are_members;
        plain_token = is_token;
      })

abbrev first_day : Text
first_day = codes "20240101T000000Z"

abbrev last_day : Text
last_day = codes "20240201T000000Z"

abbrev query_body : Text
query_body = asked (codes "VEVENT") (some first_day) (some last_day) true

is_query : IsQuery (codes "VEVENT") (some first_day) (some last_day)
unfolding validate_component_name validate_utc_datetime structurally_valid as_bytes
is_query = (
  (validate_component_name_iff (codes "VEVENT")).0 refl,
  (validate_utc_datetime_iff first_day).0 refl,
  (validate_utc_datetime_iff last_day).0 refl,
)

abbrev asked_query : Session entries_api text_http × Result (Reply entries_api)
asked_query = server.report session (codes "cal/") Depth.one query_body

reported_query : asked_query ≡ (asked_query.0, ok reply)
unfolding query send send_stream send_loop send_round dispatch answered respond outgoing
    prepare_request_body negotiate probe_request_compression_support probe_request probe_outcome
    request_within encode_body resolve_request_encoding handle_request_compression_outcome is_auto
    build_uri target_path combine_paths trim_slashes split_once starts_with add_accept_encoding
    add_content_encoding compress_payload decompress_body detect_encodings as_str get_entry
    remove_entry visible_text depth_as_str aggregate normalize_decompressed_headers text_eq
    detect_request_compression_preference
reported_query = refl

calendar_query_timerange-document_example :
    calendar_query_timerange entries_api server session
      (codes "cal/")
      (codes "VEVENT")
      (some first_day)
      (some last_day)
      true
    ≡ (asked_query.0, ok (map object_of members))
calendar_query_timerange-document_example =
    calendar_query_timerange-document entries_api server ascii indent session asked_query.0
      (codes "cal/") (codes "VEVENT") (some first_day) (some last_day) true members
      (some (codes "t1")) reply is_query
      (record {
        reported = reported_query;
        successful = refl;
        described = refl;
        blanks = are_blanks;
        plain = are_members;
        plain_token = is_token;
      })
