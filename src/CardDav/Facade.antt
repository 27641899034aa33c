-- ===== src/CardDav/Facade.antt =====
-- The methods of src/carddav/client.rs that hand a call over to the client of src/webdav/client.rs.
use fast_dav_rs.Base.{ℕ, Bool, List, Option}
use fast_dav_rs.Base.Result.{Result, ok, ◌>>=◌}
use fast_dav_rs.Base.Text.{Text, Bytes, codes}
use fast_dav_rs.WebDav.Headers.{HeaderApi}
use fast_dav_rs.WebDav.Types.{Depth}
use fast_dav_rs.WebDav.Xml
use fast_dav_rs.Common.Compression.Codec.{ContentEncoding, CodecApi}
use fast_dav_rs.Common.Compression.Weights.{F32Api}
use fast_dav_rs.WebDav.Client.Http.{HttpApi}
use fast_dav_rs.WebDav.Client
use fast_dav_rs.WebDav.Client.{WebDavClient, Session, RequestCompressionMode}
use fast_dav_rs.WebDav.Client.Send
use fast_dav_rs.WebDav.Client.Send.{Call}
use fast_dav_rs.WebDav.Client.Setup
use fast_dav_rs.WebDav.Client.Verbs
use fast_dav_rs.WebDav.Client.Verbs.{Outcome}
use fast_dav_rs.WebDav.Client.Batch.Requests
use fast_dav_rs.WebDav.Client.Batch.Requests.{Many}

unfoldable pub escape_xml : Text → Text
escape_xml input = Xml.escape_xml input

module _ (api : HeaderApi) (http : HttpApi api) where
  pub record CardDavClient : Type 0 where
    pub webdav : WebDavClient api http

  unfoldable pub new :
      (Text → Text) → Result (Unit {0}) → Text → Option Text → Option Text → Result CardDavClient
  new base64 hyper base_url basic_user basic_pass = do
    webdav ← Setup.new api http base64 hyper base_url basic_user basic_pass
    ok (record { webdav = webdav })

  unfoldable pub etag_from_headers : api.HeaderMap → Option Text
  etag_from_headers headers = Verbs.etag_from_headers api headers

  module _ (client : CardDavClient) where
    -- A setting of the inner client.
    abbrev configured : Setup.Settings api http → CardDavClient × Session api http
    configured (webdav, s) = (record client { webdav = webdav }, s)

    unfoldable pub set_request_compression :
        Session api http → ContentEncoding → CardDavClient × Session api http
    set_request_compression s encoding =
        configured (Setup.set_request_compression api http client.webdav s encoding)

    unfoldable pub set_request_compression_mode :
        Session api http → RequestCompressionMode → CardDavClient × Session api http
    set_request_compression_mode s mode =
        configured (Client.set_request_compression_mode api http client.webdav s mode)

    unfoldable pub set_request_compression_auto :
        Session api http → CardDavClient × Session api http
    set_request_compression_auto s =
        configured (Setup.set_request_compression_auto api http client.webdav s)

    unfoldable pub disable_request_compression : Session api http → CardDavClient × Session api http
    disable_request_compression s =
        configured (Setup.disable_request_compression api http client.webdav s)

    unfoldable pub request_compression_mode : RequestCompressionMode
    request_compression_mode = Setup.request_compression_mode api http client.webdav

    unfoldable pub request_compression : Session api http → ContentEncoding
    request_compression s = Setup.request_compression api http client.webdav s

    unfoldable pub build_uri : Text → Result http.Uri
    build_uri path = Client.build_uri api http client.webdav path

    module _ (codec : CodecApi) (floats : F32Api) where
      abbrev Returns : Type 0
      Returns = Outcome api http codec floats client.webdav

      unfoldable pub send : Session api http → Text → Call api http → Returns
      send s path call = Send.send api http codec floats client.webdav s path call

      unfoldable pub send_stream : Session api http → Text → Call api http → Returns
      send_stream s path call = Send.send_stream api http codec floats client.webdav s path call

      unfoldable pub options : Session api http → Text → Returns
      options s path = Verbs.options api http codec floats client.webdav s path

      unfoldable pub head : Session api http → Text → Returns
      head s path = Verbs.head api http codec floats client.webdav s path

      unfoldable pub get_aggregated : Session api http → Text → Returns
      get_aggregated s path = Verbs.get_aggregated api http codec floats client.webdav s path

      unfoldable pub delete : Session api http → Text → Returns
      delete s path = Verbs.delete api http codec floats client.webdav s path

      unfoldable pub delete_if_match : Session api http → Text → Text → Returns
      delete_if_match s path etag =
          Verbs.delete_if_match api http codec floats client.webdav s path etag

      unfoldable pub copy : Session api http → Text → Text → Bool → Returns
      copy s src_path dest_absolute_url overwrite =
          Verbs.copy api http codec floats client.webdav s src_path dest_absolute_url overwrite

      unfoldable pub move : Session api http → Text → Text → Bool → Returns
      move s src_path dest_absolute_url overwrite =
          Verbs.move api http codec floats client.webdav s src_path dest_absolute_url overwrite

      unfoldable pub propfind : Session api http → Text → Depth → Text → Returns
      propfind s path depth xml_body =
          Verbs.propfind api http codec floats client.webdav s path depth xml_body

      unfoldable pub report : Session api http → Text → Depth → Text → Returns
      report s path depth xml_body =
          Verbs.report api http codec floats client.webdav s path depth xml_body

      unfoldable pub propfind_stream : Session api http → Text → Depth → Text → Returns
      propfind_stream s path depth xml_body =
          Verbs.propfind_stream api http codec floats client.webdav s path depth xml_body

      unfoldable pub report_stream : Session api http → Text → Depth → Text → Returns
      report_stream s path depth xml_body =
          Verbs.report_stream api http codec floats client.webdav s path depth xml_body

      unfoldable pub proppatch : Session api http → Text → Text → Returns
      proppatch s path xml_body =
          Verbs.proppatch api http codec floats client.webdav s path xml_body

      unfoldable pub mkcol : Session api http → Text → Option Text → Returns
      mkcol s path xml_body = Verbs.mkcol api http codec floats client.webdav s path xml_body

      unfoldable pub supports_webdav_sync :
          Session api http → Session api http × Option (Result Bool)
      supports_webdav_sync s = Verbs.supports_webdav_sync api http codec floats client.webdav s

      unfoldable pub propfind_many :
          List Text
          → (depth : Depth) (xml_body : Bytes) → ℕ
          → Many api http codec floats client.webdav (codes "PROPFIND") depth xml_body
      propfind_many paths depth xml_body max_concurrency =
          Requests.propfind_many api http codec floats client.webdav paths depth xml_body
            max_concurrency

      unfoldable pub report_many :
          List Text
          → (depth : Depth) (xml_body : Bytes) → ℕ
          → Many api http codec floats client.webdav (codes "REPORT") depth xml_body
      report_many paths depth xml_body max_concurrency =
          Requests.report_many api http codec floats client.webdav paths depth xml_body
            max_concurrency
