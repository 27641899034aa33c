-- ===== src/WebDav/Client/Trace.antt =====
-- What requests the sending functions of src/webdav/client.rs add to those of a session.
pub mod Carried
pub mod Conditional
pub mod Loop
use mathlib.Core.List.{append-nil, append_assoc}
use fast_dav_rs.Base.{
  ℕ, ◌≡◌, refl, sym, ap, ◌∙◌, subst, Bool, true, false, List, [], ◌∷◌, ◌++◌, Option, none, some,
  Option-cases, Bool-cases, ◌⊎◌, inl, inr, All, All-append, All-imp, not, is_none, is_some, ◌&&◌,
  if◌then◌else◌, arith,
}
use fast_dav_rs.Base.Result.{Result, ok, err}
use fast_dav_rs.WebDav.Headers.{HeaderApi}
use fast_dav_rs.Common.Compression.Codec.{ContentEncoding, CodecApi}
use fast_dav_rs.Common.Compression.Weights.{F32Api}
use fast_dav_rs.WebDav.Client.Http.{HttpApi, Request, Response, Answer}
use fast_dav_rs.WebDav.Client.{
  is_auto, WebDavClient, Session, negotiate, probe_request_compression_support, probe_request,
  send_probe, probe_at, build_uri, request_within, handle_request_compression_outcome,
  refuses_compression,
}
use fast_dav_rs.WebDav.Client.Send.{
  Call, Round, again, done, Outgoing, respond, answered, dispatch, send_round, send_loop, send_to,
  send_stream, send, outgoing_in,
}

module _ (api : HeaderApi) (http : HttpApi api) where
  -- The second session sent what the first one did, and then requests of the given kind.
  pub record Adds (P : Request api http → Type 0) (s t : Session api http) : Type 0 where
    pub more : List (Request api http)
    pub sent : t.sent ≡ s.sent ++ more
    pub kind : All P more

  pub Adds-imp :
      {P Q : Request api http → Type 0}
      → ((req : Request api http) → P req → Q req)
      → (s t : Session api http) → Adds P s t
      → Adds Q s t
  Adds-imp f s t a = record { more = a.more; sent = a.sent; kind = All-imp f a.more a.kind }

  module _ (P : Request api http → Type 0) where
    pub Adds-trans : (s t u : Session api http) → Adds P s t → Adds P t u → Adds P s u
    Adds-trans s t u a b = record {
      more = a.more ++ b.more;
      sent = b.sent ∙ ap (λ q. q ++ b.more) a.sent ∙ append_assoc s.sent a.more b.more;
      kind = All-append P a.more b.more a.kind b.kind;
    }

    pub Adds-same : (s t : Session api http) → t.sent ≡ s.sent → Adds P s t
    Adds-same s t e = record { more = []; sent = e ∙ sym (append-nil s.sent); kind = tt }

    pub request_within-Adds :
        (s : Session api http) (limit : ℕ) (req : Request api http)
        → P req
        → Adds P s (request_within api http s limit req).0
    unfolding request_within
    request_within-Adds s limit req p = go s.answers
      where
        go :
            (answers : List (Answer api))
            → Adds P s (request_within api http (record s { answers = answers }) limit req).0
        go [] = record { more = req ∷ []; sent = refl; kind = (p, tt) }
        go (a ∷ rest) = record { more = req ∷ []; sent = refl; kind = (p, tt) }

    module _ (codec : CodecApi) (floats : F32Api) (client : WebDavClient api http) where
      -- Every probe is of the kind.
      abbrev pub Probes : Type 0
      Probes =
          (uri : http.Uri) (req : Request api http)
          → build_uri api http client [] ≡ ok uri
          → probe_request api http codec floats client uri ≡ some req
          → P req

      module _ (probes : Probes) where
        send_probe-Adds :
            (s : Session api http) (uri : http.Uri)
            → build_uri api http client [] ≡ ok uri
            → Adds P s (
                send_probe api http codec floats s (probe_request api http codec floats client uri))
        send_probe-Adds s uri b =
            elim (Option-cases (probe_request api http codec floats client uri)) [
              | inl n ↦ rw n (Adds-same _ _ refl)
              | inr (req, k) ↦ rw k (
                  Adds-trans s _ _ (request_within-Adds s 5 req (probes uri req b k))
                    (Adds-same _ _ refl))
            ]

        probe_at-Adds :
            (s : Session api http) (uri : Result http.Uri)
            → build_uri api http client [] ≡ uri
            → Adds P s (probe_at api http codec floats client s uri)
        probe_at-Adds s (err e) b = Adds-same _ _ refl
        probe_at-Adds s (ok uri) b = send_probe-Adds s uri b

        probe_support-Adds :
            (s : Session api http)
            → Adds P s (probe_request_compression_support api http codec floats client s)
        unfolding probe_request_compression_support
        probe_support-Adds s = elim (Bool-cases (is_auto client.request_compression_mode)) [
          | inr manual ↦ rw manual (Adds-same s s refl)
          | inl automatic ↦ elim (Bool-cases (is_some s.negotiated)) [
            | inl known ↦ rw (automatic, known) (Adds-same s s refl)
            | inr unknown ↦
                rw (automatic, unknown) (probe_at-Adds s (build_uri api http client []) refl)
          ]
        ]

        pub negotiate-Adds :
            (s : Session api http) → Adds P s (negotiate api http codec floats client s)
        unfolding negotiate
        negotiate-Adds s =
            elim (Bool-cases (is_auto client.request_compression_mode && is_none s.negotiated)) [
              | inl needed ↦ rw needed (probe_support-Adds s)
              | inr skipped ↦ rw skipped (Adds-same s s refl)
            ]

        handle_outcome-sent :
            (s : Session api http) (attempted : Option ContentEncoding) (status : ℕ)
            → (handle_request_compression_outcome api http codec floats client s attempted
                status).0.sent
              ≡ s.sent
        unfolding handle_request_compression_outcome
        handle_outcome-sent s attempted status = ground arith

        module _ (uri : http.Uri) (call : Call api http) where
          abbrev pub left : Round api http → Session api http
          left (again t) = t
          left (done t result) = t

          respond-left :
              (attempt : ℕ) (attempted : Option ContentEncoding) (resp : Response api)
              (s : Session api http) (retry : Bool)
              → left
                  (respond api http codec floats client uri call attempt attempted resp (s, retry))
                ≡ s
          unfolding respond
          respond-left attempt attempted resp s retry = ground arith

          pub answered-left :
              (attempt : ℕ) (attempted : Option ContentEncoding) (s : Session api http)
              (result : Result (Response api))
              → (left (
                  answered api http codec floats client uri call attempt attempted
                    (s, result))).sent
                ≡ s.sent
          unfolding answered
          answered-left attempt attempted s (err e) = refl
          answered-left attempt attempted s (ok resp) =
              ap (λ (t : Session api http). t.sent) (respond-left attempt attempted resp _ _)
              ∙ handle_outcome-sent s attempted resp.status
