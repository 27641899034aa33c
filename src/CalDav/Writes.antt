-- ===== src/CalDav/Writes.antt =====
-- The writing operations of src/caldav/client.rs, on the session of the WebDAV client.
use fast_dav_rs.Base.{some, is_empty, if◌then◌else◌}
use fast_dav_rs.Base.Result.{err, empty_etag}
use fast_dav_rs.Base.Text.{Text, Bytes, codes}
use fast_dav_rs.Base.Utf8.{as_bytes}
use fast_dav_rs.WebDav.Headers.{HeaderApi}
use fast_dav_rs.Common.Compression.Codec.{CodecApi}
use fast_dav_rs.Common.Compression.Weights.{F32Api}
use fast_dav_rs.WebDav.Client.Http.{HttpApi}
use fast_dav_rs.WebDav.Client.{WebDavClient, Session, xml_type}
use fast_dav_rs.WebDav.Client.Verbs.{Outcome, send_with, with_value}

module _ (api : HeaderApi) (http : HttpApi api) (codec : CodecApi) (floats : F32Api)
    (client : WebDavClient api http) where
  open api use {HeaderMap, no_headers, insert, from_static}

  abbrev Returns : Type 0
  Returns = Outcome api http codec floats client

  abbrev pub ical_type : HeaderMap
  ical_type =
      insert no_headers (codes "content-type") (from_static (codes "text/calendar; charset=utf-8"))

  unfoldable pub put : Session api http → Text → Bytes → Returns
  put s path ical_bytes =
      send_with api http codec floats client s (codes "PUT") path ical_type (some ical_bytes)

  unfoldable pub put_if_match : Session api http → Text → Bytes → Text → Returns
  put_if_match s path ical_bytes etag =
      let guarded = with_value api http codec floats client s etag λ v.
        send_with api http codec floats client s (codes "PUT") path
          (insert ical_type (codes "if-match") v) (some ical_bytes) in
      if is_empty etag then (s, some (err empty_etag)) else guarded

  unfoldable pub put_if_none_match : Session api http → Text → Bytes → Returns
  put_if_none_match s path ical_bytes =
      send_with api http codec floats client s (codes "PUT") path
        (insert ical_type (codes "if-none-match") (from_static (codes "*"))) (some ical_bytes)

  unfoldable pub mkcalendar : Session api http → Text → Text → Returns
  mkcalendar s path xml_body =
      send_with api http codec floats client s (codes "MKCALENDAR") path
        (insert no_headers (codes "content-type") (xml_type api http)) (some (as_bytes xml_body))
