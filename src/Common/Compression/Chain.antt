-- ===== src/Common/Compression/Chain.antt =====
-- Decoding a body that went through a chain of encodings.
use mathlib.Core.List.{reverse, reverse-append}
use fast_dav_rs.Base.{
  ◌≡◌, refl, sym, ap, ◌∙◌, List, [], ◌∷◌, ◌++◌, Option, some, Option-cases, inl, inr, ◌>>=?◌,
}
use fast_dav_rs.Base.Text.{Bytes}
use fast_dav_rs.Common.Compression.Codec.{ContentEncoding, identity, br, CodecApi}
use fast_dav_rs.Common.Compression.{
  wrap, decode_loop, decompress_body, decompress_stream, compress_payload,
}

module _ (codec : CodecApi) where
  -- A sender applies the encodings of `Content-Encoding` in the order of the list.
  abbrev pub compress_chain : List ContentEncoding → Bytes → Option Bytes
  compress_chain [] x = some x
  compress_chain (e ∷ rest) x = compress_payload codec x e >>=? compress_chain rest

  wrap-compress_payload :
      (e : ContentEncoding) (x : Bytes) {y : Bytes}
      → compress_payload codec x e ≡ some y
      → wrap codec (some y) e ≡ some x
  unfolding compress_payload
  wrap-compress_payload identity x h = sym h
  wrap-compress_payload br x h = codec.decode-encode br x h
  wrap-compress_payload e x h = codec.decode-encode e x h

  decode_loop-append :
      (xs ys : List ContentEncoding) (current : Option Bytes)
      → decode_loop codec current (xs ++ ys) ≡ decode_loop codec (decode_loop codec current xs) ys
  unfolding decode_loop
  decode_loop-append [] ys current = refl
  decode_loop-append (e ∷ xs) ys current = decode_loop-append xs ys (wrap codec current e)

  -- The decoders are stacked in the order that undoes the chain: the first encoding of the list was
  -- applied first, and is taken off last.
  pub decompress_body-compress_chain :
      (encodings : List ContentEncoding) (x : Bytes) {y : Bytes}
      → compress_chain encodings x ≡ some y
      → decompress_body codec (some y) encodings ≡ some x
  unfolding decompress_body decode_loop
  decompress_body-compress_chain [] x h = sym h
  decompress_body-compress_chain (e ∷ rest) x {y} h =
      elim (Option-cases (compress_payload codec x e)) [
        | inl failed ↦ absurd (cc (rw failed at h))
        | inr (z, first) ↦
            let later : compress_chain rest z ≡ some y = rw first at h in
            ap (decode_loop codec (some y)) (reverse-append (e ∷ []) rest)
            ∙ decode_loop-append (reverse rest) (e ∷ []) (some y)
            ∙ ap (λ b. decode_loop codec b (e ∷ [])) (decompress_body-compress_chain rest z later)
            ∙ wrap-compress_payload e x first
      ]

  -- The same holds of a body that is read as a stream.
  pub decompress_stream-compress_chain :
      (encodings : List ContentEncoding) (x : Bytes) {y : Bytes}
      → compress_chain encodings x ≡ some y
      → decompress_stream codec (some y) encodings ≡ some x
  unfolding decompress_stream decompress_body
  decompress_stream-compress_chain encodings x h = decompress_body-compress_chain encodings x h
