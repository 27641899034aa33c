-- ===== src/WebDav/Client/Verbs.antt =====
-- The verbs of src/webdav/client.rs.
pub mod Sync
use fast_dav_rs.Base.{
  Bool, true, false, ◌&&◌, List, [], ◌∷◌, Option, none, some, if◌then◌else◌, ◌>>=?◌,
}
use fast_dav_rs.Base.Result.{Result, ok, err, invalid_header}
use fast_dav_rs.Base.Text.{Text, Bytes, codes, contains_text, to_ascii_lowercase}
use fast_dav_rs.Base.Utf8.{from_utf8_lossy, as_bytes}
use fast_dav_rs.WebDav.Headers.{HeaderApi}
use fast_dav_rs.WebDav.Types.{Depth, depth_as_str}
use fast_dav_rs.Common.Compression.Codec.{CodecApi}
use fast_dav_rs.Common.Compression.Weights.{F32Api}
use fast_dav_rs.WebDav.Client.Http.{HttpApi, Response, is_success}
use fast_dav_rs.WebDav.Client.{WebDavClient, Session, xml_type}
use fast_dav_rs.WebDav.Client.Send.{send, send_stream}

module _ (api : HeaderApi) where
  open api use {HeaderMap, HeaderValue, no_headers, get, insert, from_str, from_static, to_str}

  unfoldable pub etag_from_headers : HeaderMap → Option Text
  etag_from_headers headers = get headers (codes "etag") >>=? to_str

  module _ (http : HttpApi api) (codec : CodecApi) (floats : F32Api)
      (client : WebDavClient api http) where
    -- What a call leaves and returns.
    abbrev pub Outcome : Type 0
    Outcome = Session api http × Option (Result (Response api))

    abbrev pub send_with : Session api http → Text → Text → HeaderMap → Option Bytes → Outcome
    send_with s method path headers body_bytes = send api http codec floats client s path (record {
      method = method;
      headers = headers;
      body_bytes = body_bytes;
      per_req_timeout = none;
    })

    -- `HeaderValue::from_str(text)?`
    abbrev pub with_value : Session api http → Text → (HeaderValue → Outcome) → Outcome
    with_value s value next = elim (from_str value) [
      | none ↦ (s, some (err invalid_header))
      | some v ↦ next v
    ]

    unfoldable pub options : Session api http → Text → Outcome
    options s path = send_with s (codes "OPTIONS") path no_headers none

    unfoldable pub head : Session api http → Text → Outcome
    head s path = send_with s (codes "HEAD") path no_headers none

    unfoldable pub get_aggregated : Session api http → Text → Outcome
    get_aggregated s path = send_with s (codes "GET") path no_headers none

    unfoldable pub delete : Session api http → Text → Outcome
    delete s path = send_with s (codes "DELETE") path no_headers none

    unfoldable pub delete_if_match : Session api http → Text → Text → Outcome
    delete_if_match s path etag =
        with_value s etag
          λ v. send_with s (codes "DELETE") path (insert no_headers (codes "if-match") v) none

    -- `copy` and `move`, which differ in their method only
    unfoldable pub transfer : Text → Session api http → Text → Text → Bool → Outcome
    transfer method s src_path dest_absolute_url overwrite = with_value s dest_absolute_url λ v.
        send_with s method src_path
          (insert (insert no_headers (codes "destination") v) (codes "overwrite")
            (from_static (if overwrite then codes "T" else codes "F")))
          none

    abbrev pub copy : Session api http → Text → Text → Bool → Outcome
    copy = transfer (codes "COPY")

    abbrev pub move : Session api http → Text → Text → Bool → Outcome
    move = transfer (codes "MOVE")

    abbrev pub with_xml_type : HeaderMap → HeaderMap
    with_xml_type headers = insert headers (codes "content-type") (xml_type api http)

    -- `propfind` and `report`, which differ in their method only
    unfoldable pub query : Text → Session api http → Text → Depth → Text → Outcome
    query method s path depth xml_body = with_value s (depth_as_str depth) λ v.
        send_with s method path (with_xml_type (insert no_headers (codes "depth") v))
          (some (as_bytes xml_body))

    abbrev pub propfind : Session api http → Text → Depth → Text → Outcome
    propfind = query (codes "PROPFIND")

    abbrev pub report : Session api http → Text → Depth → Text → Outcome
    report = query (codes "REPORT")

    -- `propfind_stream` and `report_stream`, likewise
    unfoldable pub query_stream : Text → Session api http → Text → Depth → Text → Outcome
    query_stream method s path depth xml_body = with_value s (depth_as_str depth) λ v.
        send_stream api http codec floats client s path (record {
          method = method;
          headers = with_xml_type (insert no_headers (codes "depth") v);
          body_bytes = some (as_bytes xml_body);
          per_req_timeout = none;
        })

    abbrev pub propfind_stream : Session api http → Text → Depth → Text → Outcome
    propfind_stream = query_stream (codes "PROPFIND")

    abbrev pub report_stream : Session api http → Text → Depth → Text → Outcome
    report_stream = query_stream (codes "REPORT")

    unfoldable pub proppatch : Session api http → Text → Text → Outcome
    proppatch s path xml_body =
        send_with s (codes "PROPPATCH") path (with_xml_type no_headers) (some (as_bytes xml_body))

    unfoldable pub mkcol : Session api http → Text → Option Text → Outcome
    mkcol s path none = send_with s (codes "MKCOL") path no_headers none
    mkcol s path (some xml_body) =
        send_with s (codes "MKCOL") path (with_xml_type no_headers) (some (as_bytes xml_body))

    abbrev names_sync : Option Bytes → Bool
    names_sync none = false
    names_sync (some body) =
        contains_text (to_ascii_lowercase (from_utf8_lossy body)) (codes "sync-collection")

    -- The answer to the `PROPFIND` says that the report is supported.
    abbrev pub advertises : Option (Result (Response api)) → Bool
    advertises (some (ok resp)) = is_success resp.status && names_sync resp.body
    advertises _ = false

    -- What the answer to the `REPORT` says.
    abbrev pub judge : Option (Result (Response api)) → Option (Result Bool)
    judge none = none
    judge (some (err e)) = some (ok false)
    judge (some (ok resp)) = some (ok (is_success resp.status))

    abbrev pub supported_report_set : Text
    supported_report_set =
        codes
          "<?xml version=\"1.0\" encoding=\"utf-8\"?>\n<D:propfind xmlns:D=\"DAV:\">\n  <D:prop>\n    <D:supported-report-set/>\n  </D:prop>\n</D:propfind>"

    abbrev test_sync : Text
    test_sync =
        codes
          "<D:sync-collection xmlns:D=\"DAV:\">\n            <D:sync-token/>\n            <D:sync-level>1</D:sync-level>\n            <D:prop>\n                <D:getetag/>\n            </D:prop>\n        </D:sync-collection>"

    abbrev pub fall_back : Outcome → Session api http × Option (Result Bool)
    fall_back (s, answer) = (s, judge answer)

    -- The `REPORT` is sent only if the `PROPFIND` does not advertise it.
    unfoldable pub supports_webdav_sync : Session api http → Session api http × Option (Result Bool)
    supports_webdav_sync s =
        let asked = propfind s [] Depth.zero supported_report_set in
        elim (advertises asked.1) [
          | true ↦ (asked.0, some (ok true))
          | false ↦ fall_back (report asked.0 [] Depth.one test_sync)
        ]
