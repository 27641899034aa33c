-- ===== src/WebDav/Client/Serve.antt =====
-- The client of src/webdav/client.rs as the world that the operations of src/caldav/client.rs and
-- src/carddav/client.rs send their requests to.
use fast_dav_rs.Base.{
  ◌≡◌, refl, sym, subst, ◌⊎◌, inl, inr, List, [], Option, none, some, unwrap_or, Option-cases,
  ◌>>=?◌,
}
use fast_dav_rs.Base.Result.{Result, ok, err, ◌>>=◌, timed_out}
use fast_dav_rs.Base.Text.{Text, Bytes, codes}
use fast_dav_rs.WebDav.Headers.{HeaderApi}
use fast_dav_rs.WebDav.Reader.{Reading}
use fast_dav_rs.WebDav.Types.{Depth, depth_as_str}
use fast_dav_rs.WebDav.Server.{Server, Reply}
use fast_dav_rs.Common.Compression.{compress_payload}
use fast_dav_rs.Common.Compression.Codec.{CodecApi}
use fast_dav_rs.Common.Compression.Weights.{F32Api}
use fast_dav_rs.WebDav.Client.Http.{HttpApi, Request, Response}
use fast_dav_rs.WebDav.Client.{
  WebDavClient, Session, probe_request, probe_body, auto_default_encoding,
}
use fast_dav_rs.WebDav.Client.Send.{Call}
use fast_dav_rs.WebDav.Client.Trace.{Adds, Adds-imp, Adds-same}
use fast_dav_rs.WebDav.Client.Trace.Carried.{IsSentBy, send-Carries}
use fast_dav_rs.WebDav.Client.Verbs.{Outcome, query, propfind, report, with_value}

module _ (api : HeaderApi) (http : HttpApi api) (codec : CodecApi) (floats : F32Api)
    (client : WebDavClient api http) where
  -- What the operations see of a response, whose body is aggregated.
  abbrev reply_of : Response api → Reply api
  reply_of response = record {
    status = response.status;
    headers = response.headers;
    body = unwrap_or response.body [];
  }

  abbrev answer_of : Option (Result (Response api)) → Result (Reply api)
  answer_of answer = unwrap_or answer (err timed_out) >>= λ response. ok (reply_of response)

  abbrev served : Outcome api http codec floats client → Session api http × Result (Reply api)
  served (s, answer) = (s, answer_of answer)

  -- The reader and `unescape` are those of the quick-xml crate.
  abbrev pub session_server : (Bytes → List Reading) → (Text → Option Text) → Server api
  session_server read unescape = record {
    World = Session api http;
    propfind =
        λ s path depth body. served (propfind api http codec floats client s path depth body);
    report = λ s path depth body. served (report api http codec floats client s path depth body);
    read = read;
    unescape = unescape;
  }

  abbrev pub IsReadMethod : Text → Type 0
  IsReadMethod method = (method ≡ codes "PROPFIND") ⊎ (method ≡ codes "REPORT")

  -- The request changes nothing on the server.
  abbrev pub IsRead : Request api http → Type 0
  IsRead req = IsReadMethod req.method

  built-IsRead :
      (uri : http.Uri) (o : Option api.HeaderMap) (body : Bytes) {req : Request api http}
      → (o >>=? λ built.
          some (record { method = codes "PROPFIND"; uri = uri; headers = built; body = body }))
        ≡ some req
      → IsRead req
  built-IsRead uri none body k = absurd (cc k)
  built-IsRead uri (some built) body k = inl (cc k)

  probe_request-IsRead :
      (uri : http.Uri) {req : Request api http}
      → probe_request api http codec floats client uri ≡ some req
      → IsRead req
  unfolding probe_request
  probe_request-IsRead uri k =
      elim (Option-cases (compress_payload codec probe_body auto_default_encoding)) [
        | inl failed ↦ built-IsRead uri _ _ (rw (failed, probe_request) at k)
        | inr (y, compressed) ↦ built-IsRead uri _ _ (rw (compressed, probe_request) at k)
      ]

  pub query-IsRead :
      (method : Text)
      → IsReadMethod method
      → (s : Session api http) (path : Text) (depth : Depth) (body : Text)
      → Adds api http IsRead s (query api http codec floats client method s path depth body).0
  unfolding query
  query-IsRead method which s path depth body =
      elim (Option-cases (api.from_str (depth_as_str depth))) [
        | inl n ↦ rw (n, with_value) (Adds-same api http IsRead s s refl)
        | inr (v, k) ↦
            rw (k, with_value)
              (Adds-imp api http (read_or_probe _ which) s _
                (send-Carries api http codec floats client path _ s))
      ]
    where
      read_or_probe :
          (call : Call api http)
          → IsReadMethod call.method
          → (req : Request api http) → IsSentBy api http codec floats client path call req
          → IsRead req
      read_or_probe call which req (inl p) = probe_request-IsRead p.0 p.2
      read_or_probe call which req (inr own) = subst IsReadMethod (sym own.method) which
