-- ===== src/Tests/CompressionRuns.antt =====
-- Runs of src/common/compression.rs.
use fast_dav_rs.Base.{◌≡◌, refl, some, [], ◌∷◌}
use fast_dav_rs.Base.Text.{codes}
use fast_dav_rs.Common.Compression.{
  compress_payload, parse_encodings, detect_encodings, add_content_encoding, decompress_body,
}
use fast_dav_rs.Common.Compression.Chain.{decompress_body-compress_chain}
use fast_dav_rs.Common.Compression.Codec.{br, gzip, zstd, marking_codec}
use fast_dav_rs.Common.Compression.Detect.{
  list_encodings, parse_encodings-list_encodings, detect_encodings-add_content_encoding,
}
use fast_dav_rs.Common.Compression.Preference.{parse_preferences, choose}
use fast_dav_rs.Common.Compression.Preference.Best.{IsChoice, choose-IsChoice}
use fast_dav_rs.Common.Compression.Weights.{whole_weights}
use fast_dav_rs.WebDav.Headers.{entries_api}

decompress_body-compress_chain_example :
    decompress_body marking_codec (some (2 ∷ 1 ∷ codes "hello")) (br ∷ gzip ∷ [])
    ≡ some (codes "hello")
unfolding compress_payload
decompress_body-compress_chain_example =
    decompress_body-compress_chain marking_codec (br ∷ gzip ∷ []) (codes "hello") refl

parse_encodings-list_encodings_example :
    parse_encodings (list_encodings (zstd ∷ br ∷ [])) ≡ zstd ∷ br ∷ []
parse_encodings-list_encodings_example =
    parse_encodings-list_encodings (zstd ∷ br ∷ []) (refl, (refl, tt))

detect_encodings-add_content_encoding_example :
    detect_encodings entries_api
      (add_content_encoding entries_api ((codes "content-encoding", codes "br") ∷ []) gzip)
    ≡ gzip ∷ []
detect_encodings-add_content_encoding_example =
    detect_encodings-add_content_encoding entries_api ((codes "content-encoding", codes "br") ∷ [])
      gzip refl

choose-IsChoice_example :
    IsChoice whole_weights
      (parse_preferences whole_weights (codes "gzip;q=0, br, *;q=1"))
      (choose whole_weights (parse_preferences whole_weights (codes "gzip;q=0, br, *;q=1")))
choose-IsChoice_example =
    choose-IsChoice whole_weights (parse_preferences whole_weights (codes "gzip;q=0, br, *;q=1"))
