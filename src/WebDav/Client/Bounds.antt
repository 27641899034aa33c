-- ===== src/WebDav/Client/Bounds.antt =====
-- How often a call of `send_stream` or `send` of src/webdav/client.rs sends, and what it sends the
-- second time.
use fast_dav_rs.Base.{
  ℕ, ◌+◌, ◌≤◌, ◌≡◌, refl, Option, none, some, Bool, true, if◌then◌else◌, ◌==◌, Bool-cases,
  Option-cases, ==_iff, inl, inr, ◌&&◌, is_some, is_none, arith,
}
use fast_dav_rs.Base.Result.{Result, ok, err}
use fast_dav_rs.Base.Slices.{&&-eq-true}
use fast_dav_rs.Base.Text.{Bytes}
use fast_dav_rs.WebDav.Headers.{HeaderApi}
use fast_dav_rs.Common.Compression.Codec.{ContentEncoding, identity, CodecApi}
use fast_dav_rs.Common.Compression.Weights.{F32Api}
use fast_dav_rs.Common.Compression.{add_accept_encoding, is_identity, compress_payload}
use fast_dav_rs.WebDav.Client.Http.{HttpApi, Response}
use fast_dav_rs.WebDav.Client.{
  is_auto, WebDavClient, Session, encode_body, negotiate, prepare_request_body,
  handle_request_compression_outcome, refuses_compression,
}
use fast_dav_rs.WebDav.Client.Negotiation.{
  count, request_within-count, negotiate-Negotiated, negotiate-skips,
}
use fast_dav_rs.WebDav.Client.Send.{
  Call, Round, again, done, Outgoing, outgoing, respond, answered, dispatch, send_round, send_loop,
  send_rounds,
}

module _ (api : HeaderApi) (http : HttpApi api) (codec : CodecApi) (floats : F32Api)
    (client : WebDavClient api http) where
  pub encode_body-session :
      (s : Session api http) (h : api.HeaderMap) (payload : Bytes) (e : ContentEncoding)
      → (encode_body api http codec floats s h payload e).session ≡ s
  unfolding encode_body
  encode_body-session s h payload e = elim (Bool-cases (is_identity e)) [
    | inl i ↦ rw i refl
    | inr n ↦ rw n (elim (Option-cases (compress_payload codec payload e)) [
      | inl failed ↦ rw failed refl
      | inr (y, compressed) ↦ rw compressed refl
    ])
  ]

  -- One request may go to the probe.
  abbrev pub probe_budget : Session api http → ℕ
  probe_budget s = if is_auto client.request_compression_mode && is_none s.negotiated then 1 else 0

  negotiate-count :
      (s : Session api http)
      → count api http (negotiate api http codec floats client s)
        ≤ count api http s + probe_budget s
  negotiate-count s =
      elim (Bool-cases (is_auto client.request_compression_mode && is_none s.negotiated)) [
        | inl needed ↦ rw needed (negotiate-Negotiated api http codec floats client s).few
        | inr skipped ↦
            rw (skipped, negotiate-skips api http codec floats client s skipped) (omega arith)
      ]

  outgoing-count :
      (s : Session api http) (h : api.HeaderMap) (body : Option Bytes)
      → count api http (outgoing api http codec floats client s h body).session
        ≤ count api http s + probe_budget s
  unfolding outgoing prepare_request_body
  outgoing-count s h none = omega arith
  outgoing-count s h (some body) = rw (encode_body-session _ _ body _) (negotiate-count s)

  -- What the outcome of a response does to the session.
  abbrev Settled : Session api http → Session api http × Bool → Type 0
  Settled s (t, retry) =
      (count api http t ≡ count api http s)
      × (retry ≡ true
          → (is_auto client.request_compression_mode ≡ true) × (t.negotiated ≡ some identity))

  handle_request_compression_outcome-Settled :
      (s : Session api http) (attempted : Option ContentEncoding) (status : ℕ)
      → Settled s
          (handle_request_compression_outcome api http codec floats client s attempted status)
  unfolding handle_request_compression_outcome
  handle_request_compression_outcome-Settled s attempted status =
      elim (Bool-cases (is_auto client.request_compression_mode)) [
        | inr manual ↦ rw (manual, handle_request_compression_outcome) (refl, λ h. absurd (cc h))
        | inl automatic ↦ elim (Option-cases attempted) [
          | inl plain ↦
              rw (automatic, plain, handle_request_compression_outcome) (refl, λ h. absurd (cc h))
          | inr (e, compressed) ↦ elim (Bool-cases (refuses_compression status)) [
            | inl refused ↦
                rw (automatic, compressed, refused, handle_request_compression_outcome)
                  (refl, λ h. (refl, refl))
            | inr fine ↦
                rw (automatic, compressed, fine, handle_request_compression_outcome)
                  (refl, λ h. absurd (cc h))
          ]
        ]
      ]

  -- The requests that a call can send: one more than the first only where the encoding is
  -- negotiated, and one more for the probe.
  abbrev pub send_budget : Session api http → ℕ
  send_budget s =
      if is_auto client.request_compression_mode then (if is_none s.negotiated then 3 else 2) else 1

  module _ (uri : http.Uri) (call : Call api http) where
    -- What is known of a round, by what it comes to.
    abbrev pub IsRound : ℕ → Session api http → Round api http → Type 0
    IsRound attempt s (done t result) = count api http t ≤ count api http s + probe_budget s + 1
    IsRound attempt s (again t) =
        (count api http t ≤ count api http s + probe_budget s + 1)
        × (attempt ≡ 0)
        × (is_some call.body_bytes ≡ true)
        × (is_auto client.request_compression_mode ≡ true)
        × (t.negotiated ≡ some identity)

    respond-IsRound :
        (attempt : ℕ) (attempted : Option ContentEncoding) (resp : Response api)
        (s t : Session api http) (retry : Bool)
        → count api http t ≤ count api http s + probe_budget s + 1
        → (retry ≡ true
            → (is_auto client.request_compression_mode ≡ true) × (t.negotiated ≡ some identity))
        → IsRound attempt s
            (respond api http codec floats client uri call attempt attempted resp (t, retry))
    unfolding respond
    respond-IsRound attempt attempted resp s t retry few settled =
        elim (Bool-cases (retry && attempt == 0 && is_some call.body_bytes)) [
          | inl more ↦
              let first = &&-eq-true (retry && attempt == 0) _ more in
              let second = &&-eq-true retry _ first.0 in
              rw (more, respond)
                (
                  few,
                  (==_iff attempt 0).0 second.1,
                  first.1,
                  (settled second.0).0,
                  (settled second.0).1,
                )
          | inr last ↦ rw (last, respond) few
        ]

    answered-IsRound :
        (attempt : ℕ) (attempted : Option ContentEncoding) (s t : Session api http)
        (result : Result (Response api))
        → count api http t ≤ count api http s + probe_budget s + 1
        → IsRound attempt s
            (answered api http codec floats client uri call attempt attempted (t, result))
    unfolding answered
    answered-IsRound attempt attempted s t (err e) few = few
    answered-IsRound attempt attempted s t (ok resp) few =
        let settled = handle_request_compression_outcome-Settled t attempted resp.status in
        respond-IsRound attempt attempted resp s _ _ (omega (arith, settled.0)) settled.1

    dispatch-IsRound :
        (attempt : ℕ) (out : Outgoing api http codec floats) (s : Session api http)
        (built : Option api.HeaderMap)
        → count api http out.session ≤ count api http s + probe_budget s
        → IsRound attempt s (dispatch api http codec floats client uri call attempt out built)
    unfolding dispatch
    dispatch-IsRound attempt out s none few = omega arith
    dispatch-IsRound attempt out s (some built) few =
        answered-IsRound attempt out.attempted_encoding s _ _
          (omega (arith, request_within-count api http out.session))

    pub send_round-IsRound :
        (attempt : ℕ) (s : Session api http)
        → IsRound attempt s (send_round api http codec floats client uri call attempt s)
    unfolding send_round
    send_round-IsRound attempt s =
        dispatch-IsRound attempt _ s _
          (outgoing-count s (add_accept_encoding api call.headers) call.body_bytes)

    -- What is known of the loop's result.
    abbrev pub IsOutcome :
        Session api http → Session api http × Option (Result (Response api)) → Type 0
    IsOutcome s (t, result) =
        (is_some result ≡ true) × (count api http t ≤ count api http s + send_budget s)

    probe_budget-send_budget : (s : Session api http) → probe_budget s + 1 ≤ send_budget s
    probe_budget-send_budget s = ground arith

    probe_budget-auto :
        (s : Session api http)
        → is_auto client.request_compression_mode ≡ true
        → probe_budget s + 2 ≤ send_budget s
    probe_budget-auto s automatic = ground arith

    probe_budget-known :
        (s : Session api http) {e : ContentEncoding} → s.negotiated ≡ some e → probe_budget s ≡ 0
    probe_budget-known s known = rw known (ground arith)

    -- The second round is the last.
    second_round :
        (s : Session api http)
        → IsRound 1 s (send_round api http codec floats client uri call 1 s)
        → (is_some (send_loop api http codec floats client uri call 1 1 s).1 ≡ true)
          × (count api http (send_loop api http codec floats client uri call 1 1 s).0
              ≤ count api http s + probe_budget s + 1)
    unfolding send_loop
    second_round s h = go (send_round api http codec floats client uri call 1 s) h
      where
        rest : Round api http → Session api http × Option (Result (Response api))
        rest (done t result) = (t, some result)
        rest (again t) = (t, none)

        go :
            (r : Round api http)
            → IsRound 1 s r
            → (is_some (rest r).1 ≡ true)
              × (count api http (rest r).0 ≤ count api http s + probe_budget s + 1)
        go (done t result) few = (refl, few)
        go (again t) (few, first, body, automatic, plain) = absurd (omega arith)

    pub send_loop-IsOutcome :
        (s : Session api http)
        → IsOutcome s (send_loop api http codec floats client uri call send_rounds 0 s)
    unfolding send_loop
    send_loop-IsOutcome s =
        go (send_round api http codec floats client uri call 0 s) (send_round-IsRound 0 s)
      where
        rest : Round api http → Session api http × Option (Result (Response api))
        rest (done t result) = (t, some result)
        rest (again t) = send_loop api http codec floats client uri call 1 1 t

        go : (r : Round api http) → IsRound 0 s r → IsOutcome s (rest r)
        go (done t result) few = (refl, omega (arith, few, probe_budget-send_budget s))
        go (again t) (few, first, body, automatic, plain) =
            let second = second_round t (send_round-IsRound 1 t) in
            (
              second.0,
              omega
                  (arith, few, second.1, probe_budget-known t plain, probe_budget-auto s automatic),
            )
