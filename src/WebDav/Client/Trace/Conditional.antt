-- ===== src/WebDav/Client/Trace/Conditional.antt =====
-- Calls of src/webdav/client.rs with a condition among their headers.
use fast_dav_rs.Base.{
  ◌≡◌, refl, ◌∙◌, true, Option, none, some, is_some, Option-cases, inl, inr, ◌⊎◌,
}
use fast_dav_rs.Base.Text.{Text, Bytes}
use fast_dav_rs.Base.Text.Laws.{text_eq_refl}
use fast_dav_rs.WebDav.Headers.{HeaderApi}
use fast_dav_rs.Common.Compression.Codec.{CodecApi}
use fast_dav_rs.Common.Compression.Weights.{F32Api}
use fast_dav_rs.WebDav.Client.Http.{HttpApi, Request}
use fast_dav_rs.WebDav.Client.{WebDavClient, Session}
use fast_dav_rs.WebDav.Client.Send.{Call}
use fast_dav_rs.WebDav.Client.Trace.{Adds, Adds-imp, Adds-same}
use fast_dav_rs.WebDav.Client.Trace.Carried.{IsFree, IsProbe, IsSentBy, send-Carries}
use fast_dav_rs.WebDav.Client.Verbs.{send_with, with_value}

module _ (api : HeaderApi) (http : HttpApi api) (codec : CodecApi) (floats : F32Api)
    (client : WebDavClient api http) where
  open api use {HeaderMap, HeaderValue, get, insert, from_str, from_static, no_headers, get-insert}

  -- The request is the probe, or it has the method, and the condition with a value.
  abbrev pub IsConditional : Text → Text → Option HeaderValue → Request api http → Type 0
  IsConditional method condition value req =
      IsProbe api http codec floats client req
      ⊎ ((req.method ≡ method) × (get req.headers condition ≡ value) × (is_some value ≡ true))

  module _ (s : Session api http) (path : Text) (method condition : Text) (free : IsFree condition)
      (headers : HeaderMap) (body : Option Bytes) where
    pub send_with-IsConditional :
        (v : HeaderValue)
        → Adds api http
            (IsConditional method condition (some v))
            s
            (send_with api http codec floats client s method path
              (insert headers condition v)
              body).0
    send_with-IsConditional v =
        Adds-imp api http carried s _ (send-Carries api http codec floats client path _ s)
      where
        call : Call api http
        call = record {
          method = method;
          headers = insert headers condition v;
          body_bytes = body;
          per_req_timeout = none;
        }

        carried :
            (req : Request api http)
            → IsSentBy api http codec floats client path call req
            → IsConditional method condition (some v) req
        carried req (inl probe) = inl probe
        carried req (inr own) = inr (
          own.method,
          own.header condition free
              ∙ get-insert headers condition condition v
              ∙ rw (text_eq_refl condition) refl,
          refl,
        )

    pub with_value-IsConditional :
        (value : Text)
        → Adds api http
            (IsConditional method condition (from_str value))
            s
            (with_value api http codec floats client s value λ v.
              send_with api http codec floats client s method path
                (insert headers condition v)
                body).0
    with_value-IsConditional value = elim (Option-cases (from_str value)) [
      | inl n ↦ rw (n, with_value) (Adds-same api http _ s s refl)
      | inr (v, k) ↦ rw (k, with_value) (send_with-IsConditional v)
    ]
