-- ===== src/CardDav/Streaming/Documents.antt =====
-- Documents that the parser of src/carddav/streaming.rs reads: what a server writes for the
-- members of an address book.
mod States
mod Written
mod Texts
mod Steps
use fast_dav_rs.Base.{ℕ, ◌≡◌, refl, ◌∙◌, List, [], ◌∷◌, Option, none, All, map}
use fast_dav_rs.Base.Result.{ok}
use fast_dav_rs.Base.Text.{Text, Bytes, codes, text_eq, to_lower}
use fast_dav_rs.WebDav.Reader.{Reading}
use fast_dav_rs.WebDav.Streaming.Elements.{
  local_name, first_match, common_element_from_bytes, common_index,
}
use fast_dav_rs.WebDav.Streaming.{common_on_start}
use fast_dav_rs.CardDav.Streaming.Elements.{multistatus, element_from_bytes, element_index}
use fast_dav_rs.CardDav.Streaming.{
  push_item, on_start, on_event, bytes_loop, parse_multistatus_bytes_with,
}
use States.{tag, between}
use Steps.{loop, members_read, token_read}
pub use States.{Piece, characters, reference, Entry, Member, found, bare, appended, item_of}
pub use Written.{document, IsBlank, IsEntry, IsPlain, IsPiece, IsPlainOption, IsRead, IsMember}

module _ (unescape : Text → Option Text) (encode : Text → Bytes) (gap : ℕ → Option Text) where
  opened :
      (more : List Reading)
      → parse_multistatus_bytes_with unescape push_item [] (tag (codes "D:multistatus") ∷ more)
        ≡ loop unescape encode gap (between []) more
  unfolding parse_multistatus_bytes_with on_start on_event bytes_loop element_from_bytes
      element_index common_on_start local_name first_match common_element_from_bytes common_index
      text_eq to_lower
  opened more = refl

  -- From a document of the form that `document` writes out, whose responses hold a path, an entity
  -- tag, the data and at most one status of the properties, or a path and a status, the parser gets
  -- exactly these, in their order, and the token of the document, if it has one. The data are joined
  -- from their texts, and a reference between them adds nothing. Texts are what `unescape` makes of
  -- the bytes, none is empty, and all but the data are without space around them; before
  -- each tag there may be white space.
  pub card_parse_multistatus_bytes_with-document :
      (ms : List Member) (token : Option Text)
      → ((depth : ℕ) → IsBlank unescape encode (gap depth))
      → All (IsMember unescape encode) ms
      → IsPlainOption unescape encode token
      → parse_multistatus_bytes_with unescape push_item [] (document encode gap ms token)
        ≡ ok (record { items = map item_of ms; sync_token = token })
  card_parse_multistatus_bytes_with-document ms token spaces ps p =
      opened _
      ∙ members_read unescape encode gap spaces ms [] _ ps
      ∙ token_read unescape encode gap spaces (map item_of ms) token p
