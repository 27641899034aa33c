-- ===== src/WebDav/Reader.antt =====
-- What the multistatus parsers see of the XML reader of the quick-xml crate: the outcomes of its
-- calls, up to the end of the document. The reader itself is not modelled.
use fast_dav_rs.Base.{List, Option}
use fast_dav_rs.Base.Text.{Text, Bytes}
use fast_dav_rs.Common.Compression.{decompress_stream}
use fast_dav_rs.Common.Compression.Codec.{ContentEncoding, CodecApi}

-- `value` is `none` where decoding or normalising it fails.
pub record Attribute : Type 0 where
  pub key : Bytes
  pub value : Option Text

-- `attributes` holds `none` where the iterator reports a malformed attribute.
pub record BytesStart : Type 0 where
  pub name : Bytes
  pub attributes : List (Option Attribute)

-- `ignored` stands for the events that the parsers skip: comments, declarations, processing
-- instructions, the document type, and general references such as `&amp;` between two texts.
pub data Event : Type 0 where
  start empty : BytesStart → Event
  text cdata : Bytes → Event
  end : Bytes → Event
  ignored : Event

-- One call of the reader; `stalled` means that the idle timeout elapsed first.
pub data Reading : Type 0 where
  event : Event → Reading
  failed stalled : Reading

-- What the reader yields on the body of a response, behind the decoders of its encodings; `reader` is
-- the XML reader on a stream, and `none` a stream that breaks.
abbrev pub stream_readings :
    CodecApi → (Option Bytes → List Reading) → Option Bytes → List ContentEncoding → List Reading
stream_readings codec reader body encodings = reader (decompress_stream codec body encodings)
