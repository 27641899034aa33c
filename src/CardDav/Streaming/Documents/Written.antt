-- ===== src/CardDav/Streaming/Documents/Written.antt =====
-- What a server writes for the members of an address book, as the events that the parser of
-- src/carddav/streaming.rs reads.
use fast_dav_rs.Base.{ℕ, ◌≡◌, true, false, List, [], ◌∷◌, Option, none, some, All, is_empty}
use fast_dav_rs.Base.Text.{Text, Bytes, codes, trim}
use fast_dav_rs.Base.Utf8.{from_utf8}
use fast_dav_rs.WebDav.Reader.{text, ignored, Reading, event}
use fast_dav_rs.CardDav.Streaming.Documents.States.{
  Piece, characters, reference, Entry, Member, found, bare, tag, closing,
}

module _ (encode : Text → Bytes) (gap : ℕ → Option Text) where
  abbrev pub written : Text → Reading
  written t = event (text (encode t))

  abbrev pub blank : Option Text → List Reading → List Reading
  blank none more = more
  blank (some t) more = written t ∷ more

  -- The white space before a tag, if there is any, by the depth of the tag.
  abbrev pub spaced : ℕ → List Reading → List Reading
  spaced depth more = blank (gap depth) more

  abbrev pub data_readings : List Piece → List Reading → List Reading
  data_readings [] more = more
  data_readings (characters t ∷ pieces) more = written t ∷ data_readings pieces more
  data_readings (reference ∷ pieces) more = event ignored ∷ data_readings pieces more

  -- An element with nothing but a text.
  abbrev pub element : Text → Text → List Reading → List Reading
  element name t more = tag name ∷ written t ∷ closing name ∷ more

  abbrev pub optional : ℕ → Text → Option Text → List Reading → List Reading
  optional depth name none more = more
  optional depth name (some t) more = spaced depth (element name t more)

  abbrev pub tail_readings : Option Text → List Reading → List Reading
  tail_readings status more =
      closing (codes "C:address-data")
      ∷ spaced 3 (
          closing (codes "D:prop")
          ∷ optional 3 (codes "D:status") status (
              spaced 2
                (closing (codes "D:propstat") ∷ spaced 1 (closing (codes "D:response") ∷ more))))

  abbrev pub member_readings : Member → List Reading → List Reading
  member_readings (found e) more = spaced 1 (
      tag (codes "D:response")
      ∷ spaced 2 (
          element (codes "D:href") e.href (
            spaced 2 (
              tag (codes "D:propstat")
              ∷ spaced 3 (
                  tag (codes "D:prop")
                  ∷ spaced 4 (
                      element (codes "D:getetag") e.etag (
                        spaced 4 (
                          tag (codes "C:address-data")
                          ∷ data_readings e.data_pieces (tail_readings e.status more)))))))))
  member_readings (bare href status) more = spaced 1 (
      tag (codes "D:response")
      ∷ spaced 2 (
          element (codes "D:href") href (
            optional 2 (codes "D:status") (some status)
              (spaced 1 (closing (codes "D:response") ∷ more)))))

  abbrev pub members_readings : List Member → List Reading → List Reading
  members_readings [] more = more
  members_readings (m ∷ ms) more = member_readings m (members_readings ms more)

  -- The answer of a server to a report on the objects of an address book.
  abbrev pub document : List Member → Option Text → List Reading
  document ms token =
      tag (codes "D:multistatus")
      ∷ members_readings ms (
          optional 1 (codes "D:sync-token") token (spaced 0 (closing (codes "D:multistatus") ∷ [])))

module _ (unescape : Text → Option Text) (encode : Text → Bytes) where
  -- The bytes for the text are UTF-8, and quick-xml's `unescape` gives the text back.
  pub record IsRead (t : Text) : Type 0 where
    pub raw : Text
    pub utf8 : from_utf8 (encode t) ≡ some raw
    pub unescaped : unescape raw ≡ some t

  -- The text is neither empty nor has space around it.
  pub record IsPlain (t : Text) : Type 0 where
    pub read : IsRead t
    pub nonempty : is_empty t ≡ false
    pub trimmed : trim t ≡ t

  -- Pieces of calendar data keep the space around them.
  abbrev pub IsPiece : Piece → Type 0
  IsPiece reference = Unit
  IsPiece (characters t) = IsRead t × (is_empty t ≡ false)

  -- White space, if there is any.
  abbrev pub IsBlank : Option Text → Type 0
  IsBlank none = Unit
  IsBlank (some t) = IsRead t × (is_empty t ≡ false) × (is_empty (trim t) ≡ true)

  abbrev pub IsPlainOption : Option Text → Type 0
  IsPlainOption none = Unit
  IsPlainOption (some t) = IsPlain t

  pub record IsEntry (e : Entry) : Type 0 where
    pub href : IsPlain e.href
    pub etag : IsPlain e.etag
    pub data_pieces : All IsPiece e.data_pieces
    pub status : IsPlainOption e.status

  -- The path, the entity tag and the status are each one text without space around it, and no text
  -- is empty.
  abbrev pub IsMember : Member → Type 0
  IsMember (found e) = IsEntry e
  IsMember (bare href status) = IsPlain href × IsPlain status
