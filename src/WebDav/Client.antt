-- ===== src/WebDav/Client.antt =====
-- src/webdav/client.rs: request bodies, the negotiation of their compression, and sending.
pub mod Batch
pub mod Body
pub mod Bounds
pub mod Http
pub mod Negotiation
pub mod Retry
pub mod Send
pub mod Serve
pub mod Setup
pub mod Sharing
pub mod Trace
pub mod Uri
pub mod Verbs
use fast_dav_rs.Base.{
  ℕ, suc, Bool, true, false, not, ◌&&◌, ◌||◌, List, [], ◌∷◌, ◌++◌, Option, none, some, ◌==◌, ltb,
  length, is_some, is_none, is_empty, unwrap_or, if◌then◌else◌, ◌>>=?◌,
}
use fast_dav_rs.Base.Result.{
  Result, ok, err, ◌>>=◌, ok_or, invalid_uri, invalid_request, timed_out, transport_failed,
  decompression_failed,
}
use fast_dav_rs.Base.Text.{Text, Bytes, codes, starts_with}
use fast_dav_rs.Base.Text.Number.{decimal}
use fast_dav_rs.Base.Text.Split.{split_once}
use fast_dav_rs.WebDav.Headers.{HeaderApi}
use fast_dav_rs.Common.Compression.Codec.{ContentEncoding, identity, gzip, CodecApi}
use fast_dav_rs.Common.Compression.Weights.{F32Api}
use fast_dav_rs.Common.Compression.{
  is_identity, add_accept_encoding, add_content_encoding, compress_payload, decompress_body,
  detect_encodings,
}
use fast_dav_rs.Common.Compression.Preference.{detect_request_compression_preference}
use Uri.{target_path}
use Http.{HttpApi, Request, Response, Answer, broken, replied, is_success}

pub data RequestCompressionMode : Type 0 where
  auto disabled : RequestCompressionMode
  force : ContentEncoding → RequestCompressionMode

unfoldable pub is_auto : RequestCompressionMode → Bool
is_auto auto = true
is_auto _ = false

-- The statuses 415, 501 and 400.
abbrev pub refuses_compression : ℕ → Bool
refuses_compression status = status == 415 || status == 501 || status == 400

abbrev pub auto_default_encoding : ContentEncoding
auto_default_encoding = gzip

abbrev pub probe_body : Bytes
probe_body =
    codes
      "<?xml version=\"1.0\" encoding=\"utf-8\"?>\n<D:propfind xmlns:D=\"DAV:\">\n  <D:prop>\n    <D:current-user-principal/>\n  </D:prop>\n</D:propfind>"

module _ (api : HeaderApi) (http : HttpApi api) where
  open api use {HeaderMap, HeaderValue, no_headers, get, insert, remove, from_str, from_static}
  open http use {
    Uri, PathAndQuery, parse_uri, parse_path_and_query, path_and_query, path, with_path_and_query,
    build_headers,
  }

  -- The fields of the client that do not change while it sends.
  pub record WebDavClient : Type 0 where
    pub base : Uri
    pub auth_header : Option HeaderValue
    pub default_timeout : ℕ
    pub request_compression_mode : RequestCompressionMode

  -- The encoding that clones of the client share, the requests that were sent, and the answers that
  -- the following ones get; a request without one is not answered.
  pub record Session : Type 0 where
    pub negotiated : Option ContentEncoding
    pub sent : List (Request api http)
    pub answers : List (Answer api)

  abbrev pub set_negotiated_encoding : Session → Option ContentEncoding → Session
  set_negotiated_encoding s encoding = record s { negotiated = encoding }

  unfoldable pub set_request_compression_mode :
      WebDavClient → Session → RequestCompressionMode → WebDavClient × Session
  set_request_compression_mode client s auto =
      (record client { request_compression_mode = auto }, set_negotiated_encoding s none)
  set_request_compression_mode client s disabled = (
    record client { request_compression_mode = disabled },
    set_negotiated_encoding s (some identity),
  )
  set_request_compression_mode client s (force enc) =
      (record client { request_compression_mode = force enc }, set_negotiated_encoding s (some enc))

  abbrev existing_path : WebDavClient → Text
  existing_path client = elim (path_and_query client.base) [ none ↦ codes "/" | some pq ↦ path pq ]

  unfoldable pub build_uri : WebDavClient → Text → Result Uri
  build_uri client p =
      if starts_with p (codes "http://") || starts_with p (codes "https://")
      then ok_or (parse_uri p) invalid_uri
      else ok_or
          (parse_path_and_query (target_path (existing_path client) p)
            >>=? with_path_and_query client.base)
          invalid_uri

  unfoldable pub resolve_request_encoding : WebDavClient → Session → ContentEncoding
  resolve_request_encoding client s = elim client.request_compression_mode [
    | disabled ↦ identity
    | force enc ↦ enc
    | auto ↦ unwrap_or s.negotiated auto_default_encoding
  ]

  -- `timeout(limit, client.request(req))`
  abbrev within_limit : ℕ → Answer api → Result (Response api)
  within_limit limit broken = err transport_failed
  within_limit limit (replied delay response) =
      if ltb limit delay then err timed_out else ok response

  unfoldable pub request_within : Session → ℕ → Request api http → Session × Result (Response api)
  request_within s limit req = elim s.answers [
    | [] ↦ (record s { sent = s.sent ++ req ∷ [] }, err timed_out)
    | answer ∷ rest ↦
        (record s { sent = s.sent ++ req ∷ []; answers = rest }, within_limit limit answer)
  ]

  abbrev pub authorization : WebDavClient → List (Text × HeaderValue)
  authorization client = elim client.auth_header [
    | none ↦ []
    | some value ↦ (codes "authorization", value) ∷ []
  ]

  abbrev pub xml_type : HeaderValue
  xml_type = from_static (codes "application/xml; charset=utf-8")

  module _ (codec : CodecApi) (floats : F32Api) where
    -- The request of the probe; without a compressed body it is sent as it is.
    unfoldable pub probe_request : WebDavClient → Uri → Option (Request api http)
    probe_request client uri =
        let headers = add_accept_encoding api (
          insert (insert no_headers (codes "depth") (from_static (codes "0")))
            (codes "content-type") xml_type) in
        elim (compress_payload codec probe_body auto_default_encoding) [
          | none ↦ with_body headers probe_body
          | some compressed ↦
              with_body (add_content_encoding api headers auto_default_encoding) compressed
        ]
      where
        with_body : HeaderMap → Bytes → Option (Request api http)
        with_body h b = build_headers (authorization client) h >>=? λ built.
            some (record { method = codes "PROPFIND"; uri = uri; headers = built; body = b })

    -- What the outcome of the probe's request says.
    unfoldable pub probe_outcome : Result (Response api) → ContentEncoding
    probe_outcome (err e) = identity
    probe_outcome (ok resp) =
        if is_success resp.status
        then unwrap_or (detect_request_compression_preference floats api resp.headers)
            auto_default_encoding
        else identity

    abbrev send_probe : Session → Option (Request api http) → Session
    send_probe s none = set_negotiated_encoding s (some identity)
    send_probe s (some req) =
        let outcome = request_within s 5 req in
        set_negotiated_encoding outcome.0 (some (probe_outcome outcome.1))

    abbrev probe_at : WebDavClient → Session → Result Uri → Session
    probe_at client s (err e) = set_negotiated_encoding s (some identity)
    probe_at client s (ok uri) = send_probe s (probe_request client uri)

    unfoldable pub probe_request_compression_support : WebDavClient → Session → Session
    probe_request_compression_support client s =
        if not (is_auto client.request_compression_mode)
        then s
        else if is_some s.negotiated
        then s
        else probe_at client s (build_uri client [])

    unfoldable pub handle_request_compression_outcome :
        WebDavClient → Session → Option ContentEncoding → ℕ → Session × Bool
    handle_request_compression_outcome client s attempted status =
        if not (is_auto client.request_compression_mode) then (s, false) else elim attempted [
          | none ↦ (s, false)
          | some encoding ↦
              if refuses_compression status
              then (set_negotiated_encoding s (some identity), true)
              else (set_negotiated_encoding s (some encoding), false)
        ]

    pub record Prepared : Type 0 where
      pub session : Session
      pub headers : HeaderMap
      pub payload : Bytes
      pub encoding : Option ContentEncoding

    -- The probe behind the lock: both reads see the same value, as nobody else writes in between.
    unfoldable pub negotiate : WebDavClient → Session → Session
    negotiate client s =
        if is_auto client.request_compression_mode && is_none s.negotiated
        then probe_request_compression_support client s
        else s

    -- What follows the removal of `Content-Encoding`.
    unfoldable pub encode_body : Session → HeaderMap → Bytes → ContentEncoding → Prepared
    encode_body s headers payload encoding =
        if is_identity encoding
        then record { session = s; headers = headers; payload = payload; encoding = none }
        else elim (compress_payload codec payload encoding) [
          | none ↦ record { session = s; headers = headers; payload = payload; encoding = none }
          | some compressed ↦ record {
            session = s;
            headers = add_content_encoding api headers encoding;
            payload = compressed;
            encoding = some encoding;
          }
        ]

    unfoldable pub prepare_request_body : WebDavClient → Session → Bytes → HeaderMap → Prepared
    prepare_request_body client s payload headers =
        let negotiated = negotiate client s in
        encode_body negotiated (remove headers (codes "content-encoding")) payload
          (resolve_request_encoding client negotiated)

    unfoldable pub normalize_decompressed_headers : HeaderMap → List ContentEncoding → ℕ → HeaderMap
    normalize_decompressed_headers headers [] body_len = headers
    normalize_decompressed_headers headers (e ∷ es) body_len =
        let plain = remove headers (codes "content-encoding") in
        elim (from_str (decimal body_len)) [
          | none ↦ remove plain (codes "content-length")
          | some value ↦ insert plain (codes "content-length") value
        ]
