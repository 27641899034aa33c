-- ===== src/WebDav/Client/Retry.antt =====
-- What a call of `send_stream` or `send` of src/webdav/client.rs comes to, and what it sends when
-- it sends again.
use fast_dav_rs.Base.{
  ℕ, ◌+◌, ◌≤◌, ◌≡◌, refl, ap, subst, ◌∙◌, Option, none, some, true, Option-cases, inl, inr, is_some,
  unwrap_or, arith,
}
use fast_dav_rs.Base.Result.{Result, ok, err}
use fast_dav_rs.Base.Text.{Text, Bytes, codes}
use fast_dav_rs.WebDav.Headers.{HeaderApi}
use fast_dav_rs.Common.Compression.Codec.{identity, gzip, CodecApi}
use fast_dav_rs.Common.Compression.Weights.{F32Api}
use fast_dav_rs.Common.Compression.{add_accept_encoding}
use fast_dav_rs.WebDav.Client.Http.{HttpApi, Response}
use fast_dav_rs.WebDav.Client.Body.{removed}
use fast_dav_rs.WebDav.Client.{
  is_auto, auto, disabled, force, RequestCompressionMode, WebDavClient, Session, encode_body,
  resolve_request_encoding, prepare_request_body, build_uri,
}
use fast_dav_rs.WebDav.Client.Negotiation.{count, negotiate-skips}
use fast_dav_rs.WebDav.Client.Bounds.{send_budget, IsRound, send_round-IsRound, send_loop-IsOutcome}
use fast_dav_rs.WebDav.Client.Send.{
  Call, again, outgoing, send_round, send_to, send_stream, outgoing_in, send, aggregate_outcome,
}

module _ (api : HeaderApi) (http : HttpApi api) (codec : CodecApi) (floats : F32Api)
    (client : WebDavClient api http) where
  -- A call returns, and sends no more than its budget.
  abbrev pub IsBounded :
      Session api http → Session api http × Option (Result (Response api)) → Type 0
  IsBounded s (t, result) =
      (is_some result ≡ true)
      × (count api http t ≤ count api http s + send_budget api http codec floats client s)

  send_to-IsBounded :
      (call : Call api http) (s : Session api http) (uri : Result http.Uri)
      → IsBounded s (send_to api http codec floats client call s uri)
  send_to-IsBounded call s (err e) = (refl, omega arith)
  send_to-IsBounded call s (ok uri) = send_loop-IsOutcome api http codec floats client uri call s

  pub send_stream-IsBounded :
      (s : Session api http) (path : Text) (call : Call api http)
      → IsBounded s (send_stream api http codec floats client s path call)
  unfolding send_stream
  send_stream-IsBounded s path call = send_to-IsBounded call s (build_uri api http client path)

  -- Every call of `send` returns a response or an error, with the two rounds that the loop gets. It
  -- sends three requests at most when the encoding is still to be negotiated, two when it is known,
  -- and one when the client does not negotiate.
  pub send-IsBounded :
      (s : Session api http) (path : Text) (call : Call api http)
      → IsBounded s (send api http codec floats client s path call)
  unfolding send
  send-IsBounded s path call =
      let streamed = send_stream-IsBounded s path call in
      (kept (send_stream api http codec floats client s path call).1 streamed.0, streamed.1)
    where
      kept :
          (result : Option (Result (Response api)))
          → is_some result ≡ true
          → is_some (aggregate_outcome api http codec floats result) ≡ true
      kept none h = h
      kept (some result) h = refl

  resolve-auto :
      (s : Session api http)
      → is_auto client.request_compression_mode ≡ true
      → resolve_request_encoding api http client s ≡ unwrap_or s.negotiated gzip
  unfolding resolve_request_encoding is_auto
  resolve-auto s = go client.request_compression_mode
    where
      go :
          (mode : RequestCompressionMode)
          → is_auto mode ≡ true
          → resolve_request_encoding api http (record client { request_compression_mode = mode }) s
            ≡ unwrap_or s.negotiated gzip
      go auto h = refl
      go disabled h = absurd (cc h)
      go (force e) h = absurd (cc h)

  module _ (uri : http.Uri) (call : Call api http) where
    -- The next round sends the caller's body as it is, under headers that claim no encoding, and
    -- without another probe.
    abbrev pub IsPlain : Session api http → Bytes → Type 0
    IsPlain t body =
        let out = outgoing_in api http codec floats client uri call t in
        (out.final_body ≡ body)
        × (api.get out.headers (codes "content-encoding") ≡ none)
        × (out.attempted_encoding ≡ none)
        × (out.session ≡ t)

    outgoing-IsPlain :
        (t : Session api http) (body : Bytes)
        → call.body_bytes ≡ some body
        → is_auto client.request_compression_mode ≡ true
        → t.negotiated ≡ some identity
        → IsPlain t body
    unfolding outgoing prepare_request_body encode_body
    outgoing-IsPlain t body given automatic known = rw given (
        rw (negotiate-skips api http codec floats client t (rw (automatic, known) refl)) (
          rw (resolve-auto t automatic ∙ ap (λ e. unwrap_or e gzip) known)
            (refl, removed api (add_accept_encoding api call.headers), refl, refl)))

    -- The loop sends again only after its first round, only in the automatic mode, and only a call
    -- that has a body; it then sends that body as it is, under headers that claim no encoding, and
    -- without another probe.
    pub send_round-IsPlain :
        (attempt : ℕ) (s : Session api http) {t : Session api http}
        → send_round api http codec floats client uri call attempt s ≡ again t
        → (attempt ≡ 0)
          × (is_auto client.request_compression_mode ≡ true)
          × ((body : Bytes) × (call.body_bytes ≡ some body) × IsPlain t body)
    send_round-IsPlain attempt s {t} e = elim (Option-cases call.body_bytes) [
      | inl absent ↦ absurd (cc (facts.2, ap is_some absent))
      | inr (body, given) ↦
          (facts.1, facts.3, (body, given, outgoing-IsPlain t body given facts.3 facts.4))
    ]
      where
        facts : IsRound api http codec floats client uri call attempt s (again t)
        facts =
            subst (IsRound api http codec floats client uri call attempt s) e
              (send_round-IsRound api http codec floats client uri call attempt s)
