-- ===== src/WebDav/Client/Send.antt =====
-- `send_stream` and `send` of src/webdav/client.rs: the loop that sends a request, once more
-- without compression if the server refuses the compressed one.
use fast_dav_rs.Base.{
  ℕ, zero, suc, Bool, ◌&&◌, List, [], ◌∷◌, ◌++◌, Option, none, some, ◌==◌, length, is_some,
  unwrap_or, if◌then◌else◌,
}
use fast_dav_rs.Base.Result.{Result, ok, err, ◌>>=◌, invalid_request, decompression_failed}
use fast_dav_rs.Base.Text.{Text, Bytes, codes}
use fast_dav_rs.WebDav.Headers.{HeaderApi}
use fast_dav_rs.Common.Compression.Codec.{ContentEncoding, CodecApi}
use fast_dav_rs.Common.Compression.Weights.{F32Api}
use fast_dav_rs.Common.Compression.{add_accept_encoding, decompress_body, detect_encodings}
use fast_dav_rs.WebDav.Client.Http.{HttpApi, Response}
use fast_dav_rs.WebDav.Client.{
  WebDavClient, Session, authorization, xml_type, build_uri, request_within, Prepared,
  prepare_request_body, handle_request_compression_outcome, normalize_decompressed_headers,
}

-- The rounds that a call gets.
abbrev pub send_rounds : ℕ
send_rounds = 2

module _ (api : HeaderApi) (http : HttpApi api) where
  open api use {HeaderMap, HeaderValue, get}

  -- The arguments of `send` behind the path.
  pub record Call : Type 0 where
    pub method : Text
    pub headers : HeaderMap
    pub body_bytes : Option Bytes
    pub per_req_timeout : Option ℕ

  -- What one round of the loop comes to: `continue`, or `break` and `?`.
  pub data Round : Type 0 where
    again : Session api http → Round
    done : Session api http → Result (Response api) → Round

  module _ (codec : CodecApi) (floats : F32Api) where
    -- The variables of a round before its request is built.
    pub record Outgoing : Type 0 where
      pub session : Session api http
      pub first_headers : List (Text × HeaderValue)
      pub headers : HeaderMap
      pub final_body : Bytes
      pub attempted_encoding : Option ContentEncoding

    abbrev default_type : HeaderMap → List (Text × HeaderValue)
    default_type headers =
        if is_some (get headers (codes "content-type"))
        then []
        else (codes "content-type", xml_type api http) ∷ []

    abbrev outgoing_of : List (Text × HeaderValue) → Prepared api http codec floats → Outgoing
    outgoing_of first prepared = record {
      session = prepared.session;
      first_headers = first;
      headers = prepared.headers;
      final_body = prepared.payload;
      attempted_encoding = prepared.encoding;
    }

    unfoldable pub outgoing :
        WebDavClient api http → Session api http → HeaderMap → Option Bytes → Outgoing
    outgoing client s headers none = record {
      session = s;
      first_headers = authorization api http client;
      headers = headers;
      final_body = [];
      attempted_encoding = none;
    }
    outgoing client s headers (some body) =
        outgoing_of (authorization api http client ++ default_type headers)
          (prepare_request_body api http codec floats client s body headers)

    module _ (client : WebDavClient api http) (uri : http.Uri) (call : Call) where
      -- The decision behind a response.
      unfoldable pub respond :
          ℕ → Option ContentEncoding → Response api → Session api http × Bool → Round
      respond attempt attempted resp (s, should_retry) =
          if should_retry && attempt == 0 && is_some call.body_bytes
          then again s
          else done s (ok resp)

      unfoldable pub answered :
          ℕ → Option ContentEncoding → Session api http × Result (Response api) → Round
      answered attempt attempted (s, err e) = done s (err e)
      answered attempt attempted (s, ok resp) =
          respond attempt attempted resp (
            handle_request_compression_outcome api http codec floats client s attempted resp.status)

      unfoldable pub dispatch : ℕ → Outgoing → Option HeaderMap → Round
      dispatch attempt out none = done out.session (err invalid_request)
      dispatch attempt out (some built) = answered attempt out.attempted_encoding (
          request_within api http out.session
            (unwrap_or call.per_req_timeout client.default_timeout)
            (record { method = call.method; uri = uri; headers = built; body = out.final_body }))

      abbrev pub outgoing_in : Session api http → Outgoing
      outgoing_in s = outgoing client s (add_accept_encoding api call.headers) call.body_bytes

      unfoldable pub send_round : ℕ → Session api http → Round
      send_round attempt s =
          let out = outgoing_in s in
          dispatch attempt out (http.build_headers out.first_headers out.headers)

      -- The loop; nothing is returned if the rounds do not suffice.
      unfoldable pub send_loop :
          ℕ → ℕ → Session api http → Session api http × Option (Result (Response api))
      send_loop zero attempt s = (s, none)
      send_loop (suc rounds) attempt s = elim (send_round attempt s) [
        | done t result ↦ (t, some result)
        | again t ↦ send_loop rounds (suc attempt) t
      ]

    abbrev pub send_to :
        WebDavClient api http
        → Call
        → Session api http
        → Result http.Uri
        → Session api http × Option (Result (Response api))
    send_to client call s (err e) = (s, some (err e))
    send_to client call s (ok uri) = send_loop client uri call send_rounds 0 s

    unfoldable pub send_stream :
        WebDavClient api http
        → Session api http
        → Text
        → Call
        → Session api http × Option (Result (Response api))
    send_stream client s path call = send_to client call s (build_uri api http client path)

    -- What `send` does with the response of its last round.
    abbrev decompressed :
        HeaderMap → ℕ → List ContentEncoding → Option Bytes → Result (Response api)
    decompressed headers status encodings none = err decompression_failed
    decompressed headers status encodings (some body) = ok (record {
      status = status;
      headers =
          normalize_decompressed_headers api http codec floats headers encodings (length body);
      body = some body;
    })

    unfoldable pub aggregate : Response api → Result (Response api)
    aggregate resp =
        let encodings = detect_encodings api resp.headers in
        decompressed resp.headers resp.status encodings (decompress_body codec resp.body encodings)

    abbrev pub aggregate_outcome : Option (Result (Response api)) → Option (Result (Response api))
    aggregate_outcome none = none
    aggregate_outcome (some result) = some (result >>= aggregate)

    unfoldable pub send :
        WebDavClient api http
        → Session api http
        → Text
        → Call
        → Session api http × Option (Result (Response api))
    send client s path call =
        let outcome = send_stream client s path call in (outcome.0, aggregate_outcome outcome.1)
