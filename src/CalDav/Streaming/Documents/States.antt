-- ===== src/CalDav/Streaming/Documents/States.antt =====
-- The objects of a document, and the states of the parser of src/caldav/streaming.rs between and within
-- the responses that hold them.
use fast_dav_rs.Base.{false, List, [], ◌∷◌, ◌++◌, Option, none, some}
use fast_dav_rs.Base.Text.{Text}
use fast_dav_rs.WebDav.Types.{DavItemCommon}
use fast_dav_rs.WebDav.Reader.{start, end, Reading, event}
use fast_dav_rs.WebDav.Streaming.Elements.{CommonElement}
use fast_dav_rs.CalDav.Types.{DavItem, new_item}
use fast_dav_rs.CalDav.Streaming.Elements.{ElementName, multistatus}
use fast_dav_rs.CalDav.Streaming.{MultistatusParser}

-- A piece of the data of an object: a text, or a reference such as `&amp;` between two texts, which
-- the reader reports on its own.
pub data Piece : Type 0 where
  characters : (content : Text) → Piece
  reference : Piece

-- An object of a calendar; `status` is that of its properties.
pub record Entry : Type 0 where
  pub href : Text
  pub etag : Text
  pub data_pieces : List Piece
  pub status : Option Text

-- What a response of the document is about: an object that the server has, or a path with a status,
-- such as that of an object that is gone.
pub data Member : Type 0 where
  found : Entry → Member
  bare : (href status : Text) → Member

abbrev pub tag : Text → Reading
tag name = event (start (record { name = name; attributes = [] }))

abbrev pub closing : Text → Reading
closing name = event (end name)

abbrev pub Loop : Type 0
Loop = MultistatusParser (List DavItem)

-- What the shared parser knows of a response.
abbrev pub known : Text → Option Text → Option Text → DavItemCommon
known h e s = record {
  href = h;
  status = s;
  displayname = none;
  etag = e;
  is_collection = false;
  sync_token = none;
  current_user_principal = [];
  owner = none;
  content_type = none;
  last_modified = none;
}

-- The parser with the given elements open, the innermost first, below the multistatus.
abbrev pub within_response :
    List DavItem → List ElementName → List CommonElement → Option Text → DavItemCommon → Loop
within_response items elements commons calendar_text common = record {
  stack = elements ++ multistatus ∷ [];
  current = record new_item { calendar_data = calendar_text };
  sync_token = none;
  common = record { stack = commons ++ CommonElement.multistatus ∷ []; current = common };
  sink = items;
}

-- The parser between the responses.
abbrev pub between : List DavItem → Loop
between items = within_response items [] [] none (known [] none none)

-- `existing.push_str(&text)` for each text; a reference adds nothing.
abbrev pub appended : Option Text → List Piece → Option Text
appended acc [] = acc
appended acc (reference ∷ pieces) = appended acc pieces
appended none (characters t ∷ pieces) = appended (some t) pieces
appended (some known_text) (characters t ∷ pieces) = appended (some (known_text ++ t)) pieces

-- What the document says of its member.
abbrev pub item_of : Member → DavItem
item_of (found e) = record new_item {
  href = e.href;
  etag = some e.etag;
  status = e.status;
  calendar_data = appended none e.data_pieces;
}
item_of (bare href status) = record new_item { href = href; status = some status }
