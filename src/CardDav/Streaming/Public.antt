-- ===== src/CardDav/Streaming/Public.antt =====
-- The public functions of src/carddav/streaming.rs over its two loops.
use fast_dav_rs.Base.{List, [], Option}
use fast_dav_rs.Base.Result.{Result, ok, ◌>>=◌}
use fast_dav_rs.Base.Text.{Text, Bytes}
use fast_dav_rs.Common.Compression.Codec.{ContentEncoding, CodecApi}
use fast_dav_rs.WebDav.Reader.{Reading, stream_readings}
use fast_dav_rs.CardDav.Types.{DavItem}
use fast_dav_rs.CardDav.Streaming.{
  ParseResult, ItemConsumer, push_item, parse_multistatus_bytes_with, parse_multistatus_stream_with,
}

module _ {C : Type 0} where
  -- `parse_multistatus_bytes_visit`, whose callback is given by what it does to the state that it
  -- captures; that state is returned beside the token.
  unfoldable pub parse_multistatus_bytes_visit :
      (Text → Option Text) → ItemConsumer C → C → List Reading → Result (C × Option Text)
  parse_multistatus_bytes_visit unescape on_item state readings = do
    result ← parse_multistatus_bytes_with unescape on_item state readings
    ok (result.items, result.sync_token)

  -- `parse_multistatus_stream_visit_with_timeout`, likewise
  unfoldable pub parse_multistatus_stream_visit :
      (Text → Option Text)
      → CodecApi
      → (Option Bytes → List Reading)
      → Option Bytes
      → List ContentEncoding
      → ItemConsumer C
      → C
      → Result (C × Option Text)
  parse_multistatus_stream_visit unescape codec reader body encodings on_item state = do
    result ←
        parse_multistatus_stream_with unescape on_item state
          (stream_readings codec reader body encodings)
    ok (result.items, result.sync_token)

-- `parse_multistatus_stream` and its variant with a timeout
unfoldable pub parse_multistatus_stream :
    (Text → Option Text)
    → CodecApi
    → (Option Bytes → List Reading)
    → Option Bytes
    → List ContentEncoding
    → Result (ParseResult (List DavItem))
parse_multistatus_stream unescape codec reader body encodings =
    parse_multistatus_stream_with unescape push_item []
      (stream_readings codec reader body encodings)
