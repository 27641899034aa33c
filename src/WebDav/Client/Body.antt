-- ===== src/WebDav/Client/Body.antt =====
-- What a server makes of a request body, and a client of a response's.
use fast_dav_rs.Base.{
  ℕ, ◌≡◌, refl, List, [], ◌∷◌, none, some, Bool-cases, Option-cases, inl, inr, length,
}
use fast_dav_rs.Base.Result.{ok}
use fast_dav_rs.Base.Text.{Bytes, codes, text_eq}
use fast_dav_rs.Base.Text.Number.{decimal}
use fast_dav_rs.WebDav.Headers.{HeaderApi}
use fast_dav_rs.Common.Compression.Codec.{ContentEncoding, CodecApi}
use fast_dav_rs.Common.Compression.Weights.{F32Api}
use fast_dav_rs.Common.Compression.{
  is_identity, compress_payload, decompress_body, detect_encodings,
}
use fast_dav_rs.Common.Compression.Chain.{compress_chain, decompress_body-compress_chain}
use fast_dav_rs.Common.Compression.Detect.{detect_encodings-add_content_encoding}
use fast_dav_rs.WebDav.Client.Http.{HttpApi, Response}
use fast_dav_rs.WebDav.Client.{
  WebDavClient, Session, Prepared, encode_body, prepare_request_body,
  normalize_decompressed_headers,
}
use fast_dav_rs.WebDav.Client.Send.{aggregate}

module _ (api : HeaderApi) where
  open api use {HeaderMap, get, remove, insert}

  pub detect_encodings-none :
      (h : HeaderMap) → get h (codes "content-encoding") ≡ none → detect_encodings api h ≡ []
  unfolding detect_encodings
  detect_encodings-none h e = rw (e, detect_encodings) refl

  pub removed :
      (h : HeaderMap) → get (remove h (codes "content-encoding")) (codes "content-encoding") ≡ none
  unfolding text_eq
  removed h = rw api.get-remove refl

  module _ (http : HttpApi api) (codec : CodecApi) (floats : F32Api) where
    -- The receiver of the headers and the body reads back the payload.
    abbrev pub Decodes : Bytes → Prepared api http codec floats → Type 0
    Decodes payload p =
        decompress_body codec (some p.payload) (detect_encodings api p.headers) ≡ some payload

    plain_decodes :
        (h : HeaderMap) (payload : Bytes)
        → get h (codes "content-encoding") ≡ none
        → decompress_body codec (some payload) (detect_encodings api h) ≡ some payload
    plain_decodes h payload e =
        rw (detect_encodings-none h e) (decompress_body-compress_chain codec [] payload refl)

    one_encoding :
        (payload : Bytes) (e : ContentEncoding) {y : Bytes}
        → compress_payload codec payload e ≡ some y
        → compress_chain codec (e ∷ []) payload ≡ some y
    one_encoding payload e h = rw h refl

    encode_body-Decodes :
        (s : Session api http) (h : HeaderMap) (payload : Bytes) (e : ContentEncoding)
        → get h (codes "content-encoding") ≡ none
        → Decodes payload (encode_body api http codec floats s h payload e)
    unfolding encode_body
    encode_body-Decodes s h payload e plain = elim (Bool-cases (is_identity e)) [
      | inl i ↦ rw i (plain_decodes h payload plain)
      | inr n ↦ rw n (elim (Option-cases (compress_payload codec payload e)) [
        | inl failed ↦ rw failed (plain_decodes h payload plain)
        | inr (y, compressed) ↦ rw compressed (
            rw (detect_encodings-add_content_encoding api h e n) (
              decompress_body-compress_chain codec (e ∷ []) payload
                (one_encoding payload e compressed)))
      ])
    ]

    -- Whatever encoding a body is sent in and whatever headers the caller gave, a server that
    -- decodes the body by the headers of the request reads the caller's body.
    pub prepare_request_body-decompress_body :
        (client : WebDavClient api http) (s : Session api http) (payload : Bytes)
        (headers : HeaderMap)
        → Decodes payload (prepare_request_body api http codec floats client s payload headers)
    unfolding prepare_request_body
    prepare_request_body-decompress_body client s payload headers =
        encode_body-Decodes _ _ payload _ (removed headers)

    normalize-plain :
        (h : HeaderMap) (es : List ContentEncoding) (n : ℕ)
        → detect_encodings api h ≡ es
        → detect_encodings api (normalize_decompressed_headers api http codec floats h es n) ≡ []
    unfolding normalize_decompressed_headers text_eq
    normalize-plain h [] n e = e
    normalize-plain h (x ∷ es) n e =
        detect_encodings-none _ (elim (Option-cases (api.from_str (decimal n))) [
          | inl failed ↦
              rw (failed, normalize_decompressed_headers)
                (rw api.get-remove (rw api.get-remove refl))
          | inr (v, made) ↦
              rw (made, normalize_decompressed_headers) (rw api.get-insert (rw api.get-remove refl))
        ])

    -- What the caller of `send` gets for a response: the body, the status, and headers that list no
    -- encoding.
    abbrev pub Restores : Response api → Bytes → Type 0
    Restores resp x =
        (r : Response api) × (aggregate api http codec floats resp ≡ ok r)
        × (r.body ≡ some x)
        × (r.status ≡ resp.status)
        × (detect_encodings api r.headers ≡ [])

    -- A response whose body went through the encodings that its headers list comes back with the
    -- original body and with headers that list no encoding.
    pub aggregate-compress_chain :
        (resp : Response api) (x : Bytes) {y : Bytes}
        → resp.body ≡ some y
        → compress_chain codec (detect_encodings api resp.headers) x ≡ some y
        → Restores resp x
    unfolding aggregate
    aggregate-compress_chain resp x {y} received chain = (
      record {
        status = resp.status;
        headers =
            normalize_decompressed_headers api http codec floats resp.headers
              (detect_encodings api resp.headers) (length x);
        body = some x;
      },
      rw received (
          rw (decompress_body-compress_chain codec (detect_encodings api resp.headers) x chain)
            refl),
      refl,
      refl,
      normalize-plain resp.headers _ (length x) refl,
    )
