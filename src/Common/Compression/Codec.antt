-- ===== src/Common/Compression/Codec.antt =====
-- `ContentEncoding` of src/common/compression.rs, and the coders of the async-compression crate as
-- an interface: `none` is a coder's error, and decoding undoes encoding.
use fast_dav_rs.Base.{◌≡◌, Option, none, some, [], ◌∷◌, arith, ◌==◌, if◌then◌else◌, ℕ}
use fast_dav_rs.Base.Text.{Bytes}

pub data ContentEncoding : Type 0 where
  identity br gzip zstd : ContentEncoding

pub record CodecApi : Type 0 where
  pub encode : ContentEncoding → Bytes → Option Bytes
  pub decode : ContentEncoding → Bytes → Option Bytes
  pub decode-encode :
      (e : ContentEncoding) (x : Bytes) {y : Bytes} → encode e x ≡ some y → decode e y ≡ some x

-- Coders that put a mark of the encoding in front meet the interface.
abbrev pub mark : ContentEncoding → ℕ
mark identity = 0
mark br = 1
mark gzip = 2
mark zstd = 3

abbrev pub strip_mark : ContentEncoding → Bytes → Option Bytes
strip_mark e [] = none
strip_mark e (b ∷ rest) = if b == mark e then some rest else none

pub strip_mark-mark :
    (e : ContentEncoding) (x : Bytes) {y : Bytes}
    → some (mark e ∷ x) ≡ some y
    → strip_mark e y ≡ some x
strip_mark-mark e x h = ground arith

abbrev pub marking_codec : CodecApi
marking_codec = record {
  encode = λ e x. some (mark e ∷ x);
  decode = strip_mark;
  decode-encode = strip_mark-mark;
}
