-- ===== src/Common/Compression/Detect.antt =====
-- Reading back a `Content-Encoding` header.
use fast_dav_rs.Base.{
  ◌≡◌, refl, ap, ◌∙◌, List, [], ◌∷◌, ◌++◌, some, arith, All, true, false, filter_map,
  filter_map-some, filter_map-none, all, ◌==◌, Option-cases, inl, inr,
}
use fast_dav_rs.Base.Text.{Text, codes, text_eq, to_lower, trim}
use fast_dav_rs.Base.Text.Split.{split, split_by, extend}
use fast_dav_rs.WebDav.Headers.{HeaderApi, is_visible}
use fast_dav_rs.Common.Compression.Codec.{ContentEncoding, identity, br}
use fast_dav_rs.Common.Compression.{
  as_str, encoding_of, token_encoding, parse_encodings, is_identity, detect_encodings,
  add_content_encoding, content_encoding_text,
}

abbrev pub NonIdentity : ContentEncoding → Type 0
NonIdentity e = is_identity e ≡ false

-- The value of a header that lists the encodings.
abbrev pub list_encodings : List ContentEncoding → Text
list_encodings [] = []
list_encodings (e ∷ []) = as_str e
list_encodings (e ∷ rest) = as_str e ++ (b',' ∷ b' ' ∷ list_encodings rest)

token_encoding-as_str : (e : ContentEncoding) → NonIdentity e → token_encoding (as_str e) ≡ some e
unfolding token_encoding encoding_of as_str trim to_lower text_eq
token_encoding-as_str identity h = cc
token_encoding-as_str br h = refl
token_encoding-as_str _ h = refl

split-as_str :
    (e : ContentEncoding) (rest : Text)
    → split b',' (as_str e ++ (b',' ∷ rest)) ≡ as_str e ∷ split b',' rest
unfolding split split_by as_str
split-as_str identity rest = refl
split-as_str _ rest = refl

split-as_str_last : (e : ContentEncoding) → split b',' (as_str e) ≡ as_str e ∷ []
unfolding split split_by as_str
split-as_str_last identity = refl
split-as_str_last _ = refl

extend-space :
    (pieces : List Text)
    → filter_map token_encoding (extend b' ' pieces) ≡ filter_map token_encoding pieces
unfolding token_encoding trim text_eq to_lower encoding_of
extend-space [] = refl
extend-space (piece ∷ rest) = refl

leading_space : (s : Text) → parse_encodings (b' ' ∷ s) ≡ parse_encodings s
unfolding parse_encodings split split_by
leading_space s = extend-space (split_by (λ c. c == b',') s)

-- A header that lists encodings other than identity is read back as that very list.
pub parse_encodings-list_encodings :
    (es : List ContentEncoding) → All NonIdentity es → parse_encodings (list_encodings es) ≡ es
parse_encodings-list_encodings [] h =
    unfold parse_encodings split split_by token_encoding encoding_of trim text_eq to_lower in refl
parse_encodings-list_encodings (e ∷ []) h =
    unfold parse_encodings in
    ap (filter_map token_encoding) (split-as_str_last e)
    ∙ filter_map-some token_encoding (as_str e) [] (token_encoding-as_str e h.0)
parse_encodings-list_encodings (e ∷ f ∷ rest) h =
    let later : Text = list_encodings (f ∷ rest) in
    let split_off : parse_encodings (as_str e ++ (b',' ∷ b' ' ∷ later))
        ≡ e ∷ parse_encodings (b' ' ∷ later) =
      (unfold parse_encodings in
        ap (filter_map token_encoding) (split-as_str e (b' ' ∷ later))
        ∙ filter_map-some token_encoding (as_str e) _ (token_encoding-as_str e h.0)) in
    split_off ∙ ap (◌∷◌ e) (leading_space later ∙ parse_encodings-list_encodings (f ∷ rest) h.1)

token_encoding-NonIdentity :
    (t : Text) {e : ContentEncoding} → token_encoding t ≡ some e → NonIdentity e
unfolding token_encoding encoding_of
token_encoding-NonIdentity t h = ground arith

-- Identity is never in the list.
pub parse_encodings-NonIdentity : (raw : Text) → All NonIdentity (parse_encodings raw)
unfolding parse_encodings
parse_encodings-NonIdentity raw = go (split b',' raw)
  where
    go : (tokens : List Text) → All NonIdentity (filter_map token_encoding tokens)
    go [] = tt
    go (t ∷ ts) = elim (Option-cases (token_encoding t)) [
      | inl unknown ↦ rw (filter_map-none token_encoding t ts unknown) (go ts)
      | inr (e, known) ↦
          rw (filter_map-some token_encoding t ts known) (token_encoding-NonIdentity t known, go ts)
    ]

module _ (api : HeaderApi) where
  open api use {HeaderMap}

  as_str-visible : (e : ContentEncoding) → all is_visible (as_str e) ≡ true
  unfolding as_str
  as_str-visible identity = refl
  as_str-visible _ = refl

  detect_encodings_of :
      (h : HeaderMap) {raw : Text}
      → content_encoding_text api h ≡ some raw
      → detect_encodings api h ≡ parse_encodings raw
  unfolding detect_encodings
  detect_encodings_of h e = rw (e, detect_encodings)

  add_content_encoding-eq :
      (h : HeaderMap) (e : ContentEncoding)
      → NonIdentity e
      → add_content_encoding api h e
        ≡ api.insert h (codes "content-encoding") (api.from_static (as_str e))
  unfolding add_content_encoding
  add_content_encoding-eq h e n = rw n (rw (api.from_str-visible (as_str e) (as_str-visible e)))

  inserted_text :
      (h : HeaderMap) (s : Text)
      → all is_visible s ≡ true
      → content_encoding_text api (api.insert h (codes "content-encoding") (api.from_static s))
        ≡ some s
  unfolding text_eq
  inserted_text h s v = rw api.get-insert (api.to_str-from_static s v)

  -- The header that is added for an encoding other than identity is detected as that encoding alone,
  -- whatever the map held before.
  pub detect_encodings-add_content_encoding :
      (h : HeaderMap) (e : ContentEncoding)
      → NonIdentity e
      → detect_encodings api (add_content_encoding api h e) ≡ e ∷ []
  detect_encodings-add_content_encoding h e n =
      ap (detect_encodings api) (add_content_encoding-eq h e n)
      ∙ detect_encodings_of _ (inserted_text h (as_str e) (as_str-visible e))
      ∙ parse_encodings-list_encodings (e ∷ []) (n, tt)
