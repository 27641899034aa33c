-- ===== src/WebDav/Client/Trace/Loop.antt =====
-- The requests that the loop of `send` and `send_stream` of src/webdav/client.rs adds.
use fast_dav_rs.Base.{ℕ, zero, suc, ◌≡◌, refl, sym, subst, Option, none, some}
use fast_dav_rs.Base.Result.{Result}
use fast_dav_rs.Base.Text.{Bytes}
use fast_dav_rs.WebDav.Headers.{HeaderApi}
use fast_dav_rs.Common.Compression.Codec.{CodecApi}
use fast_dav_rs.Common.Compression.Weights.{F32Api}
use fast_dav_rs.WebDav.Client.Http.{HttpApi, Request, Response}
use fast_dav_rs.WebDav.Client.{WebDavClient, Session, prepare_request_body}
use fast_dav_rs.WebDav.Client.Bounds.{encode_body-session}
use fast_dav_rs.WebDav.Client.Send.{
  Call, Round, again, done, Outgoing, outgoing, outgoing_in, dispatch, send_round, send_loop,
}
use fast_dav_rs.WebDav.Client.Trace.{
  Adds, Adds-trans, Adds-same, request_within-Adds, Probes, negotiate-Adds, left, answered-left,
}

module _ (api : HeaderApi) (http : HttpApi api) (P : Request api http → Type 0) (codec : CodecApi)
    (floats : F32Api) (client : WebDavClient api http)
    (probes : Probes api http P codec floats client) where
  abbrev Grows : Session api http → Session api http → Type 0
  Grows = Adds api http P

  outgoing-Adds :
      (s : Session api http) (headers : api.HeaderMap) (body : Option Bytes)
      → Grows s (outgoing api http codec floats client s headers body).session
  unfolding outgoing prepare_request_body
  outgoing-Adds s headers none = Adds-same api http P s s refl
  outgoing-Adds s headers (some body) =
      subst (Grows s) (sym (encode_body-session api http codec floats client _ _ body _))
        (negotiate-Adds api http P codec floats client probes s)

  module _ (uri : http.Uri) (call : Call api http) where
    -- The request of a round, with the headers that were built for it.
    abbrev pub own_request : Outgoing api http codec floats → api.HeaderMap → Request api http
    own_request out built = record {
      method = call.method;
      uri = uri;
      headers = built;
      body = out.final_body;
    }

    -- The requests of all rounds are of the kind.
    abbrev pub Owns : Type 0
    Owns =
        (s : Session api http) (built : api.HeaderMap)
        → http.build_headers (outgoing_in api http codec floats client uri call s).first_headers
            (outgoing_in api http codec floats client uri call s).headers
          ≡ some built
        → P (own_request (outgoing_in api http codec floats client uri call s) built)

    module _ (owns : Owns) where
      dispatch-Adds :
          (attempt : ℕ) (s : Session api http) (out : Outgoing api http codec floats)
          (built : Option api.HeaderMap)
          → Grows s out.session
          → ((b : api.HeaderMap) → built ≡ some b → P (own_request out b))
          → Grows s (
              left api http P codec floats client probes uri call
                (dispatch api http codec floats client uri call attempt out built))
      unfolding dispatch
      dispatch-Adds attempt s out none a own = a
      dispatch-Adds attempt s out (some b) a own = Adds-trans api http P s _ _ a (
          Adds-trans api http P _ _ _
            (request_within-Adds api http P out.session _ (own_request out b) (own b refl))
            (Adds-same api http P _ _ (
              answered-left api http P codec floats client probes uri call attempt
                out.attempted_encoding _ _)))

      send_round-Adds :
          (attempt : ℕ) (s : Session api http)
          → Grows s (
              left api http P codec floats client probes uri call
                (send_round api http codec floats client uri call attempt s))
      unfolding send_round
      send_round-Adds attempt s =
          dispatch-Adds attempt s _ _ (outgoing-Adds s _ call.body_bytes) (owns s)

      pub send_loop-Adds :
          (rounds attempt : ℕ) (s : Session api http)
          → Grows s (send_loop api http codec floats client uri call rounds attempt s).0
      unfolding send_loop
      send_loop-Adds zero attempt s = Adds-same api http P s s refl
      send_loop-Adds (suc rounds) attempt s =
          go (send_round api http codec floats client uri call attempt s)
            (send_round-Adds attempt s) (λ t. send_loop-Adds rounds (suc attempt) t)
        where
          rest : Round api http → Session api http × Option (Result (Response api))
          rest (done t result) = (t, some result)
          rest (again t) = send_loop api http codec floats client uri call rounds (suc attempt) t

          go :
              (r : Round api http)
              → Grows s (left api http P codec floats client probes uri call r)
              → ((t : Session api http)
                  → Grows t
                      (send_loop api http codec floats client uri call rounds (suc attempt) t).0)
              → Grows s (rest r).0
          go (done t result) a more = a
          go (again t) a more = Adds-trans api http P s t _ a (more t)
