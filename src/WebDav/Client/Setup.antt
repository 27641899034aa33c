-- ===== src/WebDav/Client/Setup.antt =====
-- The creation of a client of src/webdav/client.rs and its settings.
use fast_dav_rs.Base.{Option, none, some, ◌++◌, [], List}
use fast_dav_rs.Base.Result.{Result, ok, ◌>>=◌, ok_or, invalid_uri, invalid_header}
use fast_dav_rs.Base.Text.{Text, codes}
use fast_dav_rs.WebDav.Headers.{HeaderApi}
use fast_dav_rs.Common.Compression.Codec.{ContentEncoding}
use fast_dav_rs.WebDav.Client.Http.{HttpApi, Answer}
use fast_dav_rs.WebDav.Client.{
  RequestCompressionMode, auto, disabled, force, WebDavClient, Session,
  set_request_compression_mode, resolve_request_encoding,
}

module _ (api : HeaderApi) (http : HttpApi api) where
  -- The value of `Authorization`; `base64` is the encoder of the base64 crate.
  unfoldable pub basic_auth :
      (Text → Text) → Option Text → Option Text → Result (Option api.HeaderValue)
  basic_auth base64 (some u) (some p) = do
    value ← ok_or (api.from_str (codes "Basic " ++ base64 (u ++ codes ":" ++ p))) invalid_header
    ok (some value)
  basic_auth base64 _ _ = ok none

  -- `new`, over the result of `build_hyper_client`
  unfoldable pub new :
      (Text → Text)
      → Result (Unit {0})
      → Text
      → Option Text
      → Option Text
      → Result (WebDavClient api http)
  new base64 hyper base_url basic_user basic_pass = do
    client ← hyper
    base ← ok_or (http.parse_uri base_url) invalid_uri
    auth_header ← basic_auth base64 basic_user basic_pass
    ok (record {
      base = base;
      auth_header = auth_header;
      default_timeout = 20;
      request_compression_mode = auto;
    })

  -- The state that the clones of a new client share, before the given answers.
  unfoldable pub new_session : List (Answer api) → Session api http
  new_session answers = record { negotiated = none; sent = []; answers = answers }

  abbrev pub Settings : Type 0
  Settings = WebDavClient api http × Session api http

  unfoldable pub set_request_compression :
      WebDavClient api http → Session api http → ContentEncoding → Settings
  set_request_compression client s encoding =
      set_request_compression_mode api http client s (force encoding)

  unfoldable pub set_request_compression_auto : WebDavClient api http → Session api http → Settings
  set_request_compression_auto client s = set_request_compression_mode api http client s auto

  unfoldable pub disable_request_compression : WebDavClient api http → Session api http → Settings
  disable_request_compression client s = set_request_compression_mode api http client s disabled

  unfoldable pub request_compression_mode : WebDavClient api http → RequestCompressionMode
  request_compression_mode client = client.request_compression_mode

  unfoldable pub request_compression : WebDavClient api http → Session api http → ContentEncoding
  request_compression client s = resolve_request_encoding api http client s
