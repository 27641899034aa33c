-- ===== src/WebDav/Client/Negotiation.antt =====
-- The negotiation of src/webdav/client.rs: when the probe is sent, and what it leaves.
use fast_dav_rs.Base.{
  ℕ, ◌+◌, ◌≤◌, ◌≡◌, refl, ap, List, [], ◌∷◌, Option, none, some, true, false, Bool-cases,
  Option-cases, inl, inr, ◌&&◌, is_some, is_none, length, length-append, arith,
}
use fast_dav_rs.Base.Result.{Result, ok, err}
use fast_dav_rs.Base.Text.{starts_with}
use fast_dav_rs.WebDav.Headers.{HeaderApi}
use fast_dav_rs.Common.Compression.Codec.{CodecApi}
use fast_dav_rs.Common.Compression.Weights.{F32Api}
use fast_dav_rs.WebDav.Client.Http.{HttpApi, Request, Answer}
use fast_dav_rs.WebDav.Client.{
  is_auto, WebDavClient, Session, negotiate, request_within, probe_request_compression_support,
  probe_request, send_probe, probe_at, build_uri,
}

module _ (api : HeaderApi) (http : HttpApi api) where
  abbrev pub count : Session api http → ℕ
  count s = length s.sent

  pub request_within-count :
      (s : Session api http) (limit : ℕ) (req : Request api http)
      → count (request_within api http s limit req).0 ≡ count s + 1
  unfolding request_within
  request_within-count s limit req = go s.answers
    where
      go :
          (answers : List (Answer api))
          → count (request_within api http (record s { answers = answers }) limit req).0
            ≡ count s + 1
      go [] = length-append s.sent (req ∷ [])
      go (a ∷ rest) = length-append s.sent (req ∷ [])

  pub request_within-negotiated :
      (s : Session api http) (limit : ℕ) (req : Request api http)
      → (request_within api http s limit req).0.negotiated ≡ s.negotiated
  unfolding request_within
  request_within-negotiated s limit req = go s.answers
    where
      go :
          (answers : List (Answer api))
          → (request_within api http (record s { answers = answers }) limit req).0.negotiated
            ≡ s.negotiated
      go [] = refl
      go (a ∷ rest) = refl

  module _ (codec : CodecApi) (floats : F32Api) (client : WebDavClient api http) where
    -- What the negotiation leaves: nothing changes where it has no part, and otherwise an encoding
    -- is known and one request more is sent at most.
    pub record Negotiated (s t : Session api http) : Type 0 where
      pub known : is_auto client.request_compression_mode ≡ true → is_some t.negotiated ≡ true
      pub few : count t ≤ count s + 1
      pub unchanged :
          (is_auto client.request_compression_mode && is_none s.negotiated) ≡ false → t ≡ s

    send_probe-few :
        (s : Session api http) (req : Option (Request api http))
        → count (send_probe api http codec floats s req) ≤ count s + 1
    send_probe-few s none = omega arith
    send_probe-few s (some req) = omega (arith, request_within-count s 5 req)

    probe_at-few :
        (s : Session api http) (uri : Result http.Uri)
        → count (probe_at api http codec floats client s uri) ≤ count s + 1
    probe_at-few s (err e) = omega arith
    probe_at-few s (ok uri) = send_probe-few s (probe_request api http codec floats client uri)

    probe_at-known :
        (s : Session api http) (uri : Result http.Uri)
        → is_some (probe_at api http codec floats client s uri).negotiated ≡ true
    probe_at-known s (err e) = refl
    probe_at-known s (ok uri) = go (probe_request api http codec floats client uri)
      where
        go :
            (req : Option (Request api http))
            → is_some (send_probe api http codec floats s req).negotiated ≡ true
        go none = refl
        go (some req) = refl

    pub negotiate-skips :
        (s : Session api http)
        → (is_auto client.request_compression_mode && is_none s.negotiated) ≡ false
        → negotiate api http codec floats client s ≡ s
    unfolding negotiate
    negotiate-skips s e = rw (e, negotiate) refl

    negotiate-probes :
        (s : Session api http)
        → is_auto client.request_compression_mode ≡ true
        → s.negotiated ≡ none
        → negotiate api http codec floats client s
          ≡ probe_at api http codec floats client s (build_uri api http client [])
    unfolding negotiate probe_request_compression_support build_uri starts_with
    negotiate-probes s automatic unknown =
        rw (automatic, unknown, negotiate, probe_request_compression_support) refl

    pub negotiate-Negotiated :
        (s : Session api http) → Negotiated s (negotiate api http codec floats client s)
    negotiate-Negotiated s = elim (Bool-cases (is_auto client.request_compression_mode)) [
      | inr manual ↦ skipped (rw manual refl) (λ h. absurd (cc (h, manual)))
      | inl automatic ↦ elim (Option-cases s.negotiated) [
        | inr (e, known) ↦ skipped (rw (automatic, known) refl) (λ h. rw known refl)
        | inl unknown ↦ rw (negotiate-probes s automatic unknown) (record {
          known = λ h. probe_at-known s (build_uri api http client []);
          few = probe_at-few s (build_uri api http client []);
          unchanged = λ h. absurd (cc (rw (automatic, unknown) at h));
        })
      ]
    ]
      where
        skipped :
            (is_auto client.request_compression_mode && is_none s.negotiated) ≡ false
            → (is_auto client.request_compression_mode ≡ true → is_some s.negotiated ≡ true)
            → Negotiated s (negotiate api http codec floats client s)
        skipped e k =
            rw (negotiate-skips s e)
              (record { known = k; few = omega arith; unchanged = λ h. refl })

    -- Once a body was prepared, the negotiation of the next one changes nothing and sends nothing.
    pub negotiate-idempotent :
        (s : Session api http)
        → negotiate api http codec floats client (negotiate api http codec floats client s)
          ≡ negotiate api http codec floats client s
    negotiate-idempotent s =
        negotiate-skips _
          (settled (negotiate api http codec floats client s) (negotiate-Negotiated s).known)
      where
        settled :
            (t : Session api http)
            → (is_auto client.request_compression_mode ≡ true → is_some t.negotiated ≡ true)
            → (is_auto client.request_compression_mode && is_none t.negotiated) ≡ false
        settled t k = elim (Bool-cases (is_auto client.request_compression_mode)) [
          | inr manual ↦ rw manual refl
          | inl automatic ↦ elim (Option-cases t.negotiated) [
            | inr (e, known) ↦ rw (automatic, known) refl
            | inl unknown ↦ absurd (cc (k automatic, ap is_some unknown))
          ]
        ]
