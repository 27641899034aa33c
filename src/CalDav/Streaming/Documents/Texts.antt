-- ===== src/CalDav/Streaming/Documents/Texts.antt =====
-- The texts of a document in the parser of src/caldav/streaming.rs.
use fast_dav_rs.Base.{
  ℕ, ◌≡◌, refl, ◌∙◌, false, List, [], ◌∷◌, ◌++◌, Option, none, some, All, is_empty, Bool-cases, inl,
  inr,
}
use fast_dav_rs.Base.Result.{Result, ok}
use fast_dav_rs.Base.Text.{Text, Bytes, trim}
use fast_dav_rs.WebDav.Reader.{ignored, Reading, event}
use fast_dav_rs.WebDav.Streaming.Elements.{CommonElement, common_index, common_eq}
use fast_dav_rs.WebDav.Streaming.{common_path, common_store, common_on_text}
use fast_dav_rs.WebDav.Types.{DavItemCommon}
use fast_dav_rs.CalDav.Streaming.{property}
use fast_dav_rs.CalDav.Types.{DavItem}
use fast_dav_rs.CalDav.Streaming.Elements.{
  response, propstat, prop, calendar_data, calendar_timezone, element_index, element_eq,
}
use fast_dav_rs.CalDav.Streaming.{
  ParseResult, push_item, decode_text, item_path, store_text, handle_text, on_event, bytes_loop,
}
use fast_dav_rs.CalDav.Streaming.Documents.States.{
  Piece, characters, reference, Entry, Loop, known, within_response, appended,
}
use fast_dav_rs.CalDav.Streaming.Documents.Written.{
  written, data_readings, IsRead, IsPiece, IsBlank, blank,
}

module _ (unescape : Text → Option Text) (encode : Text → Bytes) (gap : ℕ → Option Text) where
  abbrev pub loop : Loop → List Reading → Result (ParseResult (List DavItem))
  loop = bytes_loop unescape push_item

  pub decoded : (t : Text) → IsRead unescape encode t → decode_text unescape (encode t) ≡ ok t
  unfolding decode_text
  decoded t r = rw (r.utf8, decode_text) (rw r.unescaped refl)

  -- White space is skipped but in the two elements that keep it.
  pub blank_read :
      (p : Loop) (o : Option Text) (more : List Reading)
      → item_path p (property calendar_data) ≡ false
      → item_path p (property calendar_timezone) ≡ false
      → IsBlank unescape encode o
      → loop p (blank encode gap o more) ≡ loop p more
  unfolding store_text handle_text common_on_text on_event bytes_loop
  blank_read p none more d z b = refl
  blank_read p (some t) more d z (r, n, b) = rw (decoded t r) (rw n (rw b (rw d (rw z refl))))

  module _ (items : List DavItem) where
    abbrev pub in_data : Option Text → DavItemCommon → Loop
    in_data = within_response items (calendar_data ∷ prop ∷ propstat ∷ response ∷ []) (
        CommonElement.other ∷ CommonElement.prop ∷ CommonElement.propstat ∷ CommonElement.response
        ∷ [])

    module _ (e : Entry) where
      text_read :
          (acc : Option Text) (t : Text) (more : List Reading)
          → IsRead unescape encode t
          → is_empty t ≡ false
          → loop (in_data acc (known e.href (some e.etag) none)) (written encode gap t ∷ more)
            ≡ loop
                (in_data (appended acc (characters t ∷ [])) (known e.href (some e.etag) none))
                more
      unfolding item_path store_text handle_text on_event bytes_loop element_index element_eq
          common_path common_store common_on_text common_index common_eq
      text_read none t more r n = rw (decoded t r) (
          rw n (elim (Bool-cases (is_empty (trim t))) [
            | inl blank ↦ rw blank refl
            | inr visible ↦ rw visible refl
          ]))
      text_read (some acc) t more r n = rw (decoded t r) (
          rw n (elim (Bool-cases (is_empty (trim t))) [
            | inl blank ↦ rw blank refl
            | inr visible ↦ rw visible refl
          ]))

      reference_read :
          (acc : Option Text) (more : List Reading)
          → loop (in_data acc (known e.href (some e.etag) none)) (event ignored ∷ more)
            ≡ loop (in_data acc (known e.href (some e.etag) none)) more
      unfolding on_event bytes_loop
      reference_read acc more = refl

      pub data_read :
          (acc : Option Text) (pieces : List Piece) (more : List Reading)
          → All (IsPiece unescape encode) pieces
          → loop
              (in_data acc (known e.href (some e.etag) none))
              (data_readings encode gap pieces more)
            ≡ loop (in_data (appended acc pieces) (known e.href (some e.etag) none)) more
      data_read acc [] more ps = refl
      data_read none (reference ∷ pieces) more ps =
          reference_read none _ ∙ data_read none pieces more ps.1
      data_read (some acc) (reference ∷ pieces) more ps =
          reference_read (some acc) _ ∙ data_read (some acc) pieces more ps.1
      data_read none (characters t ∷ pieces) more ps =
          text_read none t _ ps.0.0 ps.0.1 ∙ data_read (some t) pieces more ps.1
      data_read (some acc) (characters t ∷ pieces) more ps =
          text_read (some acc) t _ ps.0.0 ps.0.1 ∙ data_read (some (acc ++ t)) pieces more ps.1
