-- ===== src/Common/Compression.antt =====
-- src/common/compression.rs: content encodings in headers, and bodies.
pub mod Codec
pub mod Chain
pub mod Detect
pub mod Preference
pub mod Weights
use mathlib.Core.List.{reverse}
use fast_dav_rs.Base.{
  Bool, true, false, not, List, [], ◌∷◌, Option, none, some, filter_map, is_some, unwrap_or,
  if◌then◌else◌, ◌>>=?◌,
}
use fast_dav_rs.Base.Text.{Text, Bytes, codes, text_eq, to_ascii_lowercase, to_lower, trim}
use fast_dav_rs.Base.Text.Split.{split}
use fast_dav_rs.WebDav.Headers.{HeaderApi}
use Codec.{ContentEncoding, identity, br, gzip, zstd, CodecApi}

unfoldable pub as_str : ContentEncoding → Text
as_str identity = codes "identity"
as_str br = codes "br"
as_str gzip = codes "gzip"
as_str zstd = codes "zstd"

-- The `match enc.as_str()` of `detect_encodings`.
unfoldable pub encoding_of : Text → Option ContentEncoding
encoding_of enc =
    if text_eq enc (codes "br")
    then some br
    else if text_eq enc (codes "gzip")
    then some gzip
    else if text_eq enc (codes "zstd")
    then some zstd
    else if text_eq enc (codes "zst")
    then some zstd
    else none

unfoldable pub token_encoding : Text → Option ContentEncoding
token_encoding token = encoding_of (to_ascii_lowercase (trim token))

unfoldable pub parse_encodings : Text → List ContentEncoding
parse_encodings raw = filter_map token_encoding (split b',' raw)

abbrev pub is_identity : ContentEncoding → Bool
is_identity identity = true
is_identity _ = false

module _ (api : HeaderApi) where
  open api use {HeaderMap, HeaderValue, get, insert, from_str, from_static, to_str}

  abbrev pub content_encoding_text : HeaderMap → Option Text
  content_encoding_text headers = get headers (codes "content-encoding") >>=? to_str

  unfoldable pub detect_encodings : HeaderMap → List ContentEncoding
  detect_encodings headers = elim (content_encoding_text headers) [
    | none ↦ []
    | some raw ↦ parse_encodings raw
  ]

  unfoldable pub detect_encoding : HeaderMap → ContentEncoding
  detect_encoding headers = elim (detect_encodings headers) [ [] ↦ identity | e ∷ rest ↦ e ]

  unfoldable pub add_accept_encoding : HeaderMap → HeaderMap
  add_accept_encoding h =
      if is_some (get h (codes "accept-encoding"))
      then h
      else insert h (codes "accept-encoding") (from_static (codes "br, zstd, gzip"))

  unfoldable pub add_content_encoding : HeaderMap → ContentEncoding → HeaderMap
  add_content_encoding headers encoding =
      if is_identity encoding then headers else elim (from_str (as_str encoding)) [
        | none ↦ headers
        | some value ↦ insert headers (codes "content-encoding") value
      ]

module _ (codec : CodecApi) where
  open codec use {encode, decode}

  -- What one round of the loop over the encodings wraps around the reader.
  abbrev pub wrap : Option Bytes → ContentEncoding → Option Bytes
  wrap current identity = current
  wrap current e = current >>=? decode e

  pub decode_loop : Option Bytes → List ContentEncoding → Option Bytes
  decode_loop current [] = current
  decode_loop current (e ∷ rest) = decode_loop (wrap current e) rest

  -- `none` is an error of the transport or of a decoder.
  unfoldable pub decompress_body : Option Bytes → List ContentEncoding → Option Bytes
  unfolding decode_loop
  decompress_body body encodings = decode_loop body (reverse encodings)

  -- What the reader gives that is wrapped around the body.
  unfoldable pub decompress_stream : Option Bytes → List ContentEncoding → Option Bytes
  unfolding decode_loop
  decompress_stream body encodings = decode_loop body (reverse encodings)

  unfoldable pub compress_payload : Bytes → ContentEncoding → Option Bytes
  compress_payload payload identity = some payload
  compress_payload payload e = encode e payload
