-- ===== src/CardDav/Streaming.antt =====
-- src/carddav/streaming.rs: the multistatus parser, over the events of the XML reader.
pub mod Elements
pub mod Lockstep
pub mod Names
pub mod Nesting
pub mod Public
pub mod Visit
pub mod Callbacks
pub mod Documents
pub mod Timeout
use fast_dav_rs.Base.{
  ℕ, Bool, true, false, not, ◌&&◌, List, [], ◌∷◌, ◌++◌, Option, none, some, any, is_empty,
  if◌then◌else◌,
}
use fast_dav_rs.Base.Result.{
  Error, Result, ok, err, ◌>>=◌, unclosed_element, reader_error, attribute_error, decode_error,
  idle_timeout,
}
use fast_dav_rs.Base.Text.{
  Text, Bytes, codes, trim, text_eq, to_lower, to_ascii_lowercase, eq_ignore_ascii_case,
}
use fast_dav_rs.Base.Utf8.{from_utf8, from_utf8_lossy}
use fast_dav_rs.WebDav.Reader.{
  Attribute, BytesStart, Event, start, empty, text, cdata, end, ignored, Reading, event, failed,
  stalled,
}
use fast_dav_rs.WebDav.Streaming.{
  CommonParser, new_common, path_ends_with, common_on_start, common_on_end, common_on_text,
  finish_response,
}
use fast_dav_rs.CardDav.Types.{DavItem, new_item, apply_common}
use Elements.{
  ElementName, multistatus, response, propstat, prop, href, resourcetype, addressbook,
  supported_address_data, address_data_type, address_data, addressbook_description,
  addressbook_color, sync_token, addressbook_home_set, element_from_bytes, element_eq,
}

-- `decode_text`; `unescape` is that of the quick-xml crate.
unfoldable pub decode_text : (Text → Option Text) → Bytes → Result Text
decode_text unescape raw = elim (from_utf8 raw) [
  | some s ↦ elim (unescape s) [ none ↦ err decode_error | some t ↦ ok t ]
  | none ↦ ok (from_utf8_lossy raw)
]

-- The parser over a sink of type `C`; what the sink is stays with `ItemConsumer`.
pub record MultistatusParser (C : Type 0) : Type 0 where
  pub stack : List ElementName
  pub current : DavItem
  pub sync_token : Option Text
  pub common : CommonParser
  pub sink : C

pub record ParseResult (C : Type 0) : Type 0 where
  pub items : C
  pub sync_token : Option Text

-- `ItemConsumer`: what `consume` does to the sink.
abbrev pub ItemConsumer : Type 0 → Type 0
ItemConsumer C = C → DavItem → Result C

-- The consumer of `Vec<DavItem>`.
abbrev pub push_item : ItemConsumer (List DavItem)
push_item items item = ok (items ++ item ∷ [])

abbrev pub property : ElementName → List ElementName
property e = response ∷ propstat ∷ prop ∷ e ∷ []

abbrev pub data_type_path : List ElementName
data_type_path = response ∷ propstat ∷ prop ∷ supported_address_data ∷ address_data_type ∷ []

unfoldable pub item_path : {C : Type 0} → MultistatusParser C → List ElementName → Bool
unfolding element_eq
item_path p = path_ends_with element_eq p.stack

-- The two variables of the loop over the attributes of `address-data-type`.
pub record DataType : Type 0 where
  pub content_type : Option Text
  pub version : Option Text

-- `if !value.is_empty() { variable = Some(value) }`
abbrev assign : Option Text → Text → Option Text
assign variable value = if not (is_empty value) then some value else variable

unfoldable pub read_data_type : DataType → List (Option Attribute) → Result DataType
read_data_type d [] = ok d
read_data_type d (none ∷ rest) = err attribute_error
read_data_type d (some attr ∷ rest) =
    let skip = read_data_type d rest in
    let key = to_ascii_lowercase (from_utf8_lossy attr.key) in
    if text_eq key (codes "content-type")
    then elim attr.value [
      | none ↦ err attribute_error
      | some value ↦ read_data_type (record d { content_type = assign d.content_type value }) rest
    ]
    else if text_eq key (codes "version")
    then elim attr.value [
      | none ↦ err attribute_error
      | some value ↦ read_data_type (record d { version = assign d.version value }) rest
    ]
    else skip

-- `{content_type};version={version}`, or the content type alone
abbrev data_type_value : Text → Option Text → Text
data_type_value content_type none = content_type
data_type_value content_type (some version) = content_type ++ (codes ";version=" ++ version)

-- What follows the loop.
unfoldable pub add_data_type : List Text → DataType → List Text
add_data_type known d = elim d.content_type [
  | none ↦ known
  | some content_type ↦
      let value = data_type_value content_type d.version in
      if not (any (λ existing. eq_ignore_ascii_case existing value) known)
      then known ++ value ∷ []
      else known
]

-- `existing.push_str(&text)`, or the text alone
abbrev append_text : Option Text → Text → Option Text
append_text none chunk = some chunk
append_text (some existing) chunk = some (existing ++ chunk)

module _ {C : Type 0} where
  -- The `match element` of `on_start`, behind the push.
  abbrev pub started :
      MultistatusParser C → ElementName → List (Option Attribute) → Result (MultistatusParser C)
  started p response attributes = ok (record p { current = new_item })
  started p addressbook attributes = ok (
      if item_path p (response ∷ propstat ∷ prop ∷ resourcetype ∷ addressbook ∷ [])
      then record p { current = record p.current { is_addressbook = true } }
      else p)
  started p address_data_type attributes =
      if item_path p data_type_path
      then (do
        d ← read_data_type (record { content_type = none; version = none }) attributes
        ok (record p {
          current = record p.current {
            supported_address_data = add_data_type p.current.supported_address_data d;
          };
        }))
      else ok p
  started p _ attributes = ok p

  unfoldable pub on_start : MultistatusParser C → BytesStart → Result (MultistatusParser C)
  on_start p e =
      let element = element_from_bytes e.name in
      started (record p { common = common_on_start p.common e.name; stack = element ∷ p.stack })
        element e.attributes

  -- Pops the second stack, and hands a finished response to the sink.
  abbrev pub popped :
      ItemConsumer C → MultistatusParser C → List ElementName → Result (MultistatusParser C)
  popped consume p [] = ok p
  popped consume p (response ∷ rest) = do
    let finished = finish_response p.common
    sink ← consume p.sink (apply_common p.current finished.0)
    ok (record p { stack = rest; common = finished.1; current = new_item; sink = sink })
  popped consume p (_ ∷ rest) = ok (record p { stack = rest })

  unfoldable pub on_end :
      ItemConsumer C → MultistatusParser C → Bytes → Result (MultistatusParser C)
  on_end consume p name = do
    common ← common_on_end p.common name
    popped consume (record p { common = common }) p.stack

  -- The last chain of `handle_text`, for text that is trimmed and not empty.
  unfoldable pub store_trimmed : MultistatusParser C → Text → MultistatusParser C
  store_trimmed p trimmed =
      if item_path p (property addressbook_description)
      then record p { current = record p.current { addressbook_description = some trimmed } }
      else if item_path p (property addressbook_color)
      then record p { current = record p.current { addressbook_color = some trimmed } }
      else if item_path p (multistatus ∷ sync_token ∷ [])
      then record p { sync_token = some trimmed }
      else if item_path p (response ∷ propstat ∷ prop ∷ addressbook_home_set ∷ href ∷ [])
      then record p {
        current = record p.current {
          addressbook_home_set = p.current.addressbook_home_set ++ trimmed ∷ [];
        };
      }
      else p

  -- `handle_text` behind the call of the shared parser.
  unfoldable pub store_text : MultistatusParser C → Text → MultistatusParser C
  store_text p chunk =
      if item_path p (property address_data)
      then record p {
        current = record p.current { address_data = append_text p.current.address_data chunk };
      }
      else if is_empty (trim chunk)
      then p
      else store_trimmed p (trim chunk)

  -- `on_text` and `on_cdata` only call it.
  unfoldable pub handle_text : MultistatusParser C → Text → MultistatusParser C
  handle_text p chunk =
      if is_empty chunk
      then p
      else store_text (record p { common = common_on_text p.common chunk }) chunk

  -- `MultistatusParser::new`
  abbrev pub new_parser : C → MultistatusParser C
  new_parser sink = record {
    stack = [];
    current = new_item;
    sync_token = none;
    common = new_common;
    sink = sink;
  }

  abbrev pub finished : MultistatusParser C → List ElementName → Result (ParseResult C)
  finished p [] = ok (record { items = p.sink; sync_token = p.sync_token })
  finished p (unclosed ∷ rest) = err unclosed_element

  unfoldable pub finish : MultistatusParser C → Result (ParseResult C)
  finish p = finished p p.stack

  module _ (unescape : Text → Option Text) (consume : ItemConsumer C) where
    -- The arms of the `match` on one event.
    unfoldable pub on_event : MultistatusParser C → Event → Result (MultistatusParser C)
    on_event p (start e) = on_start p e
    on_event p (empty e) = do q ← on_start p e; on_end consume q e.name
    on_event p (text raw) = do t ← decode_text unescape raw; ok (handle_text p t)
    on_event p (cdata raw) = ok (handle_text p (from_utf8_lossy raw))
    on_event p (end name) = on_end consume p name
    on_event p ignored = ok p

    -- The loop of `parse_multistatus_bytes_with`; the end of the list is the end of the input. A
    -- blocking reader does not stall: it waits.
    unfoldable pub bytes_loop : MultistatusParser C → List Reading → Result (ParseResult C)
    bytes_loop p [] = finish p
    bytes_loop p (event e ∷ rest) = do q ← on_event p e; bytes_loop q rest
    bytes_loop p (failed ∷ rest) = err reader_error
    bytes_loop p (stalled ∷ rest) = bytes_loop p rest

    unfoldable pub parse_multistatus_bytes_with : C → List Reading → Result (ParseResult C)
    parse_multistatus_bytes_with sink = bytes_loop (new_parser sink)

    -- The loop of `parse_multistatus_stream_with`, whose reads can time out.
    unfoldable pub stream_loop : MultistatusParser C → List Reading → Result (ParseResult C)
    stream_loop p [] = finish p
    stream_loop p (event e ∷ rest) = do q ← on_event p e; stream_loop q rest
    stream_loop p (failed ∷ rest) = err reader_error
    stream_loop p (stalled ∷ rest) = err idle_timeout

    unfoldable pub parse_multistatus_stream_with : C → List Reading → Result (ParseResult C)
    parse_multistatus_stream_with sink = stream_loop (new_parser sink)
