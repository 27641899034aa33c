-- ===== src/WebDav/Client/Sharing/Preparing.antt =====
-- What `prepare_request_body` of src/webdav/client.rs does to the shared state, as the accesses of one
-- task.
use fast_dav_rs.Base.{
  ℕ, ◌≡◌, refl, sym, ap, ◌∙◌, subst, true, false, Option, none, some, unwrap_or, Option-cases,
  Bool-cases, ◌⊎◌, inl, inr, arith,
}
use fast_dav_rs.Base.Text.{Bytes, codes}
use fast_dav_rs.WebDav.Headers.{HeaderApi}
use fast_dav_rs.Common.Compression.Codec.{ContentEncoding, CodecApi}
use fast_dav_rs.Common.Compression.Weights.{F32Api}
use fast_dav_rs.Common.Compression.{is_identity, compress_payload}
use fast_dav_rs.WebDav.Client.Http.{HttpApi}
use fast_dav_rs.WebDav.Client.{
  is_auto, RequestCompressionMode, auto, disabled, force, WebDavClient, Session, negotiate,
  resolve_request_encoding, encode_body, prepare_request_body, auto_default_encoding,
}
use fast_dav_rs.WebDav.Client.Bounds.{encode_body-session}
use fast_dav_rs.WebDav.Client.Sharing.{Shared, Place, start, resolving, sending, Move, resolve}
use fast_dav_rs.WebDav.Client.Sharing.Sequential.{Moves, stay, step, Stands, negotiate-Prepares}

pub Moves-append :
    {i : ℕ} {m m' m'' : Shared} {p p' p'' : Place}
    → Moves i m p m' p'
    → Moves i m' p' m'' p''
    → Moves i m p m'' p''
Moves-append stay more = more
Moves-append (step mv r) more = step mv (Moves-append r more)

module _ (api : HeaderApi) (http : HttpApi api) (codec : CodecApi) (floats : F32Api)
    (client : WebDavClient api http) (i : ℕ) where
  -- What a task that sends in the encoding has compressed with.
  abbrev pub IsAttempt : ContentEncoding → Option ContentEncoding → Type 0
  IsAttempt e attempted = (attempted ≡ none) ⊎ ((attempted ≡ some e) × (is_identity e ≡ false))

  -- The encoding of a prepared body is the resolved one, or there is none.
  encode_body-encoding :
      (s : Session api http) (headers : api.HeaderMap) (payload : Bytes) (e : ContentEncoding)
      → IsAttempt e (encode_body api http codec floats s headers payload e).encoding
  unfolding encode_body
  encode_body-encoding s headers payload e = elim (Bool-cases (is_identity e)) [
    | inl whole ↦ rw whole (inl refl)
    | inr coded ↦ elim (Option-cases (compress_payload codec payload e)) [
      | inl n ↦ rw (coded, n) (inl refl)
      | inr k ↦ rw (coded, k.1) (inr (refl, refl))
    ]
  ]

  module _ (automatic : is_auto client.request_compression_mode ≡ true) where
    resolve-auto :
        (t : Session api http)
        → resolve_request_encoding api http client t ≡ unwrap_or t.negotiated auto_default_encoding
    unfolding resolve_request_encoding is_auto
    resolve-auto t = go client.request_compression_mode automatic
      where
        go :
            (mode : RequestCompressionMode)
            → is_auto mode ≡ true
            → resolve_request_encoding api http
                (record client { request_compression_mode = mode })
                t
              ≡ unwrap_or t.negotiated auto_default_encoding
        go auto h = refl
        go disabled h = absurd (ground arith)
        go (force e) h = absurd (ground arith)

    resolves :
        (m : Shared) (t : Session api http)
        → m.negotiated ≡ t.negotiated
        → Move i m resolving m (sending (resolve_request_encoding api http client t))
    resolves m t same =
        subst (λ e. Move i m resolving m (sending e))
          (ap (λ o. unwrap_or o auto_default_encoding) same ∙ sym (resolve-auto t)) resolve

    pub prepare_request_body-Moves :
        (s : Session api http) (payload : Bytes) (headers : api.HeaderMap) (before : ℕ) (m : Shared)
        → Stands api http i before m s
        → (m' : Shared) × (e : ContentEncoding) × Moves i m start m' (sending e)
          × Stands api http i before m'
              (prepare_request_body api http codec floats client s payload headers).session
          × IsAttempt e
              (prepare_request_body api http codec floats client s payload headers).encoding
    unfolding prepare_request_body
    prepare_request_body-Moves s payload headers before m st =
        let n = negotiate-Prepares api http i before m s st codec floats client automatic in
        let known = negotiate api http codec floats client s in
        let e = resolve_request_encoding api http client known in
        let plain_headers = api.remove headers (codes "content-encoding") in
        (
          n.0,
          e,
          Moves-append n.1 (step (resolves n.0 known n.2.same) stay),
          subst (Stands api http i before n.0)
              (sym (encode_body-session api http codec floats client known plain_headers payload e))
              n.2,
          encode_body-encoding known plain_headers payload e,
        )
