-- ===== src/CardDav/Streaming/Timeout.antt =====
-- The two loops of src/carddav/streaming.rs: over an aggregated body, and over a stream whose reads
-- can time out.
use fast_dav_rs.Base.{◌≡◌, ◌↔◌, inl, inr, Option, some, List, [], ◌∷◌}
use fast_dav_rs.Base.Result.{ok, Result-cases}
use fast_dav_rs.Base.Text.{Text, Bytes}
use fast_dav_rs.Common.Compression.Chain.{compress_chain, decompress_stream-compress_chain}
use fast_dav_rs.Common.Compression.Codec.{ContentEncoding, CodecApi}
use fast_dav_rs.CardDav.Types.{DavItem}
use fast_dav_rs.WebDav.Reader.{Reading, event, failed, stalled}
use fast_dav_rs.CardDav.Streaming.Public.{parse_multistatus_stream}
use fast_dav_rs.CardDav.Streaming.{
  MultistatusParser, ParseResult, ItemConsumer, new_parser, on_event, bytes_loop, stream_loop,
  parse_multistatus_bytes_with, parse_multistatus_stream_with, push_item,
}

abbrev pub StallFree : List Reading → Type 0
StallFree [] = Unit
StallFree (stalled ∷ rest) = ⊥
StallFree (_ ∷ rest) = StallFree rest

module _ {C : Type 0} (unescape : Text → Option Text) (consume : ItemConsumer C) where
  loops_iff :
      (readings : List Reading) (p : MultistatusParser C) {r : ParseResult C}
      → (stream_loop unescape consume p readings ≡ ok r)
        ↔ (StallFree readings × (bytes_loop unescape consume p readings ≡ ok r))
  unfolding stream_loop bytes_loop
  loops_iff [] p = ((λ h. (tt, h)), (λ h. h.1))
  loops_iff (failed ∷ rest) p = ((λ h. absurd (cc h)), (λ h. absurd (cc h.1)))
  loops_iff (stalled ∷ rest) p = ((λ h. absurd (cc h)), (λ h. absurd h.0))
  loops_iff (event e ∷ rest) p = elim (Result-cases (on_event unescape consume p e)) [
    | inl (why, refused) ↦ rw refused ((λ h. absurd (cc h)), (λ h. absurd (cc h.1)))
    | inr (q, accepted) ↦ rw accepted (loops_iff rest q)
  ]

  -- The streaming parser accepts a document with a result exactly when no read timed out and the
  -- parser of the aggregated body accepts it with the same result.
  parse_multistatus_stream_with_iff :
      (sink : C) (readings : List Reading) {r : ParseResult C}
      → (parse_multistatus_stream_with unescape consume sink readings ≡ ok r) ↔ (
          StallFree readings × (parse_multistatus_bytes_with unescape consume sink readings ≡ ok r))
  unfolding parse_multistatus_stream_with parse_multistatus_bytes_with
  parse_multistatus_stream_with_iff sink readings = loops_iff readings (new_parser sink)

module _ (unescape : Text → Option Text) (codec : CodecApi)
    (reader : Option Bytes → List Reading) where
  -- A multistatus whose body went through the encodings that its headers list is streamed as if it
  -- had not: the streaming parser accepts it with a result exactly when no read of the original body
  -- times out and the parser of the aggregated original body accepts that with the same result.
  pub card_parse_multistatus_stream-compress_chain :
      (encodings : List ContentEncoding) (x y : Bytes) {r : ParseResult (List DavItem)}
      → compress_chain codec encodings x ≡ some y
      → (parse_multistatus_stream unescape codec reader (some y) encodings ≡ ok r) ↔ (
          StallFree (reader (some x))
          × (parse_multistatus_bytes_with unescape push_item [] (reader (some x)) ≡ ok r))
  unfolding parse_multistatus_stream
  card_parse_multistatus_stream-compress_chain encodings x y h =
      rw (decompress_stream-compress_chain codec encodings x h)
        (parse_multistatus_stream_with_iff unescape push_item [] (reader (some x)))
