-- ===== src/CardDav/Conditional.antt =====
-- The conditional writes of src/carddav/client.rs.
use fast_dav_rs.Base.{refl, Option, none, some, is_empty, Bool-cases, inl, inr}
use fast_dav_rs.Base.Text.{Text, Bytes, codes, text_eq}
use fast_dav_rs.WebDav.Headers.{HeaderApi}
use fast_dav_rs.Common.Compression.Codec.{CodecApi}
use fast_dav_rs.Common.Compression.Weights.{F32Api}
use fast_dav_rs.WebDav.Client.Http.{HttpApi, Request}
use fast_dav_rs.WebDav.Client.{WebDavClient, Session}
use fast_dav_rs.WebDav.Client.Trace.{Adds, Adds-same}
use fast_dav_rs.WebDav.Client.Trace.Conditional.{
  IsConditional, send_with-IsConditional, with_value-IsConditional,
}
use fast_dav_rs.WebDav.Client.Verbs.{delete_if_match}
use fast_dav_rs.CardDav.Writes.{vcard_type, put_if_match, put_if_none_match}

module _ (api : HeaderApi) (http : HttpApi api) (codec : CodecApi) (floats : F32Api)
    (client : WebDavClient api http) where
  open api use {from_str, from_static, no_headers}

  abbrev Guarded : Text → Text → Option api.HeaderValue → Request api http → Type 0
  Guarded = IsConditional api http codec floats client

  -- Every request of a conditional write but the probe has the condition of the caller: what
  -- `put_if_match` and `delete_if_match` send has the entity tag as its `If-Match`, so that nothing is
  -- sent where the tag is no header value, and what `put_if_none_match` sends has `If-None-Match: *`.
  pub card_writes-IsConditional :
      (s : Session api http) (path : Text) (vcard_bytes : Bytes) (etag : Text)
      → Adds api http
          (Guarded (codes "PUT") (codes "if-match") (from_str etag))
          s
          (put_if_match api http codec floats client s path vcard_bytes etag).0
        × Adds api http
            (Guarded (codes "DELETE") (codes "if-match") (from_str etag))
            s
            (delete_if_match api http codec floats client s path etag).0
        × Adds api http
            (Guarded (codes "PUT") (codes "if-none-match") (some (from_static (codes "*"))))
            s
            (put_if_none_match api http codec floats client s path vcard_bytes).0
  unfolding put_if_match delete_if_match put_if_none_match text_eq
  card_writes-IsConditional s path vcard_bytes etag = (
    elim (Bool-cases (is_empty etag)) [
      | inl unset ↦ rw unset (Adds-same api http _ s s refl)
      | inr set ↦ rw set (
          with_value-IsConditional api http codec floats client s path (codes "PUT")
            (codes "if-match") refl (vcard_type api http codec floats client) (some vcard_bytes)
            etag)
    ],
    with_value-IsConditional api http codec floats client s path (codes "DELETE") (codes "if-match")
        refl no_headers none etag,
    send_with-IsConditional api http codec floats client s path (codes "PUT")
        (codes "if-none-match") refl (vcard_type api http codec floats client) (some vcard_bytes)
        (from_static (codes "*")),
  )
