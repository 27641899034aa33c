-- ===== src/Tests/ParserRuns.antt =====
-- Runs of the multistatus parser of src/caldav/streaming.rs, with a sink that takes every item.
use fast_dav_rs.Base.{
  ℕ, ◌+◌, ◌==◌, if◌then◌else◌, ◌>>=?◌, ◌≡◌, ◌↔◌, refl, none, some, List, [], ◌∷◌,
}
use fast_dav_rs.Base.Result.{Result, ok, err, success, consumer_failed}
use fast_dav_rs.Base.Text.{
  text_eq, to_lower, eq_ignore_ascii_case, is_whitespace, trim_start, trim_end, trim, Text, codes,
}
use fast_dav_rs.Base.Utf8.{from_utf8, from_utf8_lossy, as_bytes}
use fast_dav_rs.CalDav.Streaming.{
  decode_text, item_path, add_component, read_components, on_start, on_end, store_trimmed,
  store_text, handle_text, finish, on_event, bytes_loop, parse_multistatus_bytes_with, stream_loop,
  parse_multistatus_stream_with, ParseResult, push_item, ItemConsumer,
}
use fast_dav_rs.CalDav.Streaming.Elements.{element_from_bytes, element_index, element_eq}
use fast_dav_rs.CalDav.Streaming.Names.{common_of, common_of-element_from_bytes}
use fast_dav_rs.CalDav.Streaming.Nesting.{parse_multistatus_bytes_with-WellNested}
use fast_dav_rs.CalDav.Streaming.Public.{parse_multistatus_bytes_visit, parse_multistatus_stream}
use fast_dav_rs.CalDav.Streaming.Callbacks.{parse_multistatus_bytes_visit-deliver}
use fast_dav_rs.WebDav.Delivery.{deliver}
use fast_dav_rs.CalDav.Streaming.Timeout.{StallFree, parse_multistatus_stream-compress_chain}
use fast_dav_rs.CalDav.Types.{DavItem}
use fast_dav_rs.Common.Compression.{compress_payload}
use fast_dav_rs.Common.Compression.Codec.{br, gzip, marking_codec}
use fast_dav_rs.WebDav.Nesting.{WellNested}
use fast_dav_rs.WebDav.Reader.{Reading, event, start, empty, text, end, BytesStart}
use fast_dav_rs.WebDav.Streaming.{
  common_path, common_on_start, common_on_end, common_store, common_on_text, finish_response,
}
use fast_dav_rs.WebDav.Streaming.Elements.{
  local_name, first_match, common_element_from_bytes, common_index, common_eq,
}

abbrev tag : Text → BytesStart
tag name = record { name = name; attributes = [] }

-- A response with an href, in a multistatus.
abbrev document : List Reading
document =
    event (start (tag (codes "D:multistatus")))
    ∷ event (start (tag (codes "d:response")))
    ∷ event (start (tag (codes "D:href")))
    ∷ event (text (codes "/a"))
    ∷ event (end (codes "D:href"))
    ∷ event (empty (tag (codes "D:prop")))
    ∷ event (end (codes "D:response"))
    ∷ event (end (codes "D:multistatus"))
    ∷ []

abbrev parsed : Result (ParseResult (List DavItem))
parsed = parse_multistatus_bytes_with some push_item [] document

abbrev result_of : Result (ParseResult (List DavItem)) → ParseResult (List DavItem)
result_of (ok r) = r
result_of (err e) = record { items = []; sync_token = none }

accepted : parsed ≡ ok (result_of parsed)
unfolding decode_text item_path add_component read_components on_start on_end store_trimmed
    store_text handle_text finish on_event bytes_loop parse_multistatus_bytes_with stream_loop
    parse_multistatus_stream_with element_from_bytes element_index element_eq common_path
    common_on_start common_on_end common_store common_on_text finish_response local_name first_match
    common_element_from_bytes common_index common_eq from_utf8 from_utf8_lossy as_bytes text_eq
    to_lower eq_ignore_ascii_case is_whitespace trim_start trim_end trim
accepted = refl

parse_multistatus_bytes_with-WellNested_example : WellNested [] document
parse_multistatus_bytes_with-WellNested_example =
    parse_multistatus_bytes_with-WellNested some push_item [] document accepted

-- The reader yields the document on every body.
parse_multistatus_stream-compress_chain_example :
    (parse_multistatus_stream some marking_codec
        (λ body. document)
        (some (2 ∷ 1 ∷ codes "..."))
        (br ∷ gzip ∷ [])
      ≡ ok (result_of parsed))
    ↔ (StallFree document × (parsed ≡ ok (result_of parsed)))
unfolding compress_payload
parse_multistatus_stream-compress_chain_example =
    parse_multistatus_stream-compress_chain some marking_codec (λ body. document) (br ∷ gzip ∷ [])
      (codes "...") (2 ∷ 1 ∷ codes "...") refl

common_of-element_from_bytes_example :
    common_element_from_bytes (codes "C:calendar-data")
    ≡ common_of (element_from_bytes (codes "C:calendar-data"))
common_of-element_from_bytes_example = common_of-element_from_bytes (codes "C:calendar-data")

-- A callback that counts the items and refuses the third one.
abbrev count_two : ItemConsumer ℕ
count_two n item = if n == 2 then err consumer_failed else ok (n + 1)

parse_multistatus_bytes_visit-deliver_example :
    success (parse_multistatus_bytes_visit some count_two 0 document) ≡ (
      success parsed >>=? λ collected.
      success (deliver count_two 0 collected.items) >>=? λ left. some (left, collected.sync_token))
parse_multistatus_bytes_visit-deliver_example =
    parse_multistatus_bytes_visit-deliver some count_two 0 document
