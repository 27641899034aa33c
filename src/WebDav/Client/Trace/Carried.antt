-- ===== src/WebDav/Client/Trace/Carried.antt =====
-- What the requests of `send` in src/webdav/client.rs carry.
use fast_dav_rs.Base.{
  ◌≡◌, refl, ◌∙◌, false, List, [], ◌∷◌, Option, none, some, any, Option-cases, Bool-cases, ◌⊎◌, inl,
  inr, arith,
}
use fast_dav_rs.Base.Result.{Result, ok, err}
use fast_dav_rs.Base.Text.{Text, Bytes, codes, text_eq}
use fast_dav_rs.WebDav.Headers.{HeaderApi}
use fast_dav_rs.Common.Compression.{
  add_accept_encoding, add_content_encoding, compress_payload, is_identity, as_str,
}
use fast_dav_rs.Common.Compression.Codec.{ContentEncoding, CodecApi}
use fast_dav_rs.Common.Compression.Weights.{F32Api}
use fast_dav_rs.WebDav.Client.Http.{HttpApi, Request}
use fast_dav_rs.WebDav.Client.{
  WebDavClient, Session, build_uri, probe_request, encode_body, prepare_request_body,
}
use fast_dav_rs.WebDav.Client.Send.{Call, outgoing, send_rounds, send_to, send_stream, send}
use fast_dav_rs.WebDav.Client.Trace.{Adds, Adds-same}
use fast_dav_rs.WebDav.Client.Trace.Loop.{Owns, send_loop-Adds}

-- The names that the client sets itself, or may replace.
abbrev pub reserved : List Text
reserved =
    codes "authorization"
    ∷ codes "content-type"
    ∷ codes "accept-encoding"
    ∷ codes "content-encoding"
    ∷ []

abbrev pub IsFree : Text → Type 0
IsFree n = any (λ m. text_eq m n) reserved ≡ false

module _ (api : HeaderApi) (http : HttpApi api) (codec : CodecApi) (floats : F32Api)
    (client : WebDavClient api http) where
  open api use {HeaderMap, HeaderValue, get, insert, remove, get-insert, get-remove}

  module _ (n : Text) (free : IsFree n) where
    get-add_accept_encoding : (h : HeaderMap) → get (add_accept_encoding api h) n ≡ get h n
    unfolding add_accept_encoding
    get-add_accept_encoding h =
        ground (
          arith,
          get-insert h (codes "accept-encoding") n (api.from_static (codes "br, zstd, gzip")),
        )

    get-add_content_encoding :
        (h : HeaderMap) (e : ContentEncoding) → get (add_content_encoding api h e) n ≡ get h n
    unfolding add_content_encoding
    get-add_content_encoding h e = elim (Option-cases (api.from_str (as_str e))) [
      | inl none_made ↦ ground (arith, none_made)
      | inr (v, made) ↦ ground (arith, made, get-insert h (codes "content-encoding") n v)
    ]

    -- The headers of a prepared body.
    get-encode_body :
        (s : Session api http) (h : HeaderMap) (payload : Bytes) (e : ContentEncoding)
        → get (encode_body api http codec floats s h payload e).headers n ≡ get h n
    unfolding encode_body
    get-encode_body s h payload e = elim (Bool-cases (is_identity e)) [
      | inl whole ↦ rw whole refl
      | inr coded ↦ elim (Option-cases (compress_payload codec payload e)) [
        | inl failed ↦ rw (coded, failed) refl
        | inr (y, made) ↦ rw (coded, made) (get-add_content_encoding h e)
      ]
    ]

    get-outgoing :
        (s : Session api http) (h : HeaderMap) (body : Option Bytes)
        → get (outgoing api http codec floats client s h body).headers n ≡ get h n
    unfolding outgoing prepare_request_body
    get-outgoing s h none = refl
    get-outgoing s h (some body) =
        get-encode_body _ (remove h (codes "content-encoding")) body _
        ∙ ground (arith, get-remove h (codes "content-encoding") n)

    outgoing-first :
        (s : Session api http) (h : HeaderMap) (body : Option Bytes)
        → any
            (λ entry. text_eq entry.0 n)
            (outgoing api http codec floats client s h body).first_headers
          ≡ false
    unfolding outgoing prepare_request_body
    outgoing-first s h none = elim (Option-cases client.auth_header) [
      | inl absent ↦ rw absent refl
      | inr (v, given) ↦ rw given (ground arith)
    ]
    outgoing-first s h (some body) = elim (Option-cases client.auth_header) [
      | inl absent ↦ rw absent (ground arith)
      | inr (v, given) ↦ rw given (ground arith)
    ]

  -- The probe goes to the base of the client.
  abbrev pub IsProbe : Request api http → Type 0
  IsProbe req =
      (uri : http.Uri) × (build_uri api http client [] ≡ ok uri)
      × (probe_request api http codec floats client uri ≡ some req)

  -- The request of a call: its method, its path, and its headers but for the reserved ones.
  pub record Carries (path : Text) (call : Call api http) (req : Request api http) : Type 0 where
    pub method : req.method ≡ call.method
    pub uri : build_uri api http client path ≡ ok req.uri
    pub header : (n : Text) → IsFree n → get req.headers n ≡ get call.headers n

  module _ (path : Text) (call : Call api http) where
    abbrev pub IsSentBy : Request api http → Type 0
    IsSentBy req = IsProbe req ⊎ Carries path call req

    round-Carries :
        (uri : http.Uri)
        → build_uri api http client path ≡ ok uri
        → Owns api http IsSentBy codec floats client (λ u req b k. inl (u, b, k)) uri call
    round-Carries uri b s built made = inr (record {
      method = refl;
      uri = b;
      header = λ n free.
          http.get-build_headers _ _ made n (outgoing-first n free s _ call.body_bytes)
          ∙ get-outgoing n free s _ call.body_bytes
          ∙ get-add_accept_encoding n free call.headers;
    })

    send_to-Carries :
        (s : Session api http) (uri : Result http.Uri)
        → build_uri api http client path ≡ uri
        → Adds api http IsSentBy s (send_to api http codec floats client call s uri).0
    send_to-Carries s (err e) b = Adds-same api http IsSentBy s s refl
    send_to-Carries s (ok uri) b =
        send_loop-Adds api http IsSentBy codec floats client (λ u req b' k. inl (u, b', k)) uri call
          (round-Carries uri b) send_rounds 0 s

    -- Every request that a call of `send` adds to those sent before is the probe, or it goes to the
    -- URI of the call with the method of the call and, but for the reserved names, with the headers
    -- of the call.
    pub send-Carries :
        (s : Session api http)
        → Adds api http IsSentBy s (send api http codec floats client s path call).0
    unfolding send send_stream
    send-Carries s = send_to-Carries s (build_uri api http client path) refl
