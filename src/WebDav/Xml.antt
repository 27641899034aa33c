-- ===== src/WebDav/Xml.antt =====
-- src/webdav/xml.rs: escaping, the validation of query inputs, and the sync-collection body.
pub mod Datetime
pub mod Escape
pub mod Validate
use fast_dav_rs.Base.{
  ℕ, Bool, not, ◌&&◌, ◌||◌, [], ◌∷◌, ◌++◌, Option, none, some, ◌==◌, all, find, length, take, drop,
  if◌then◌else◌,
}
use fast_dav_rs.Base.Result.{
  Result, ok, err, empty_component_name, invalid_character, invalid_datetime,
}
use fast_dav_rs.Base.Text.{Text, Bytes, codes, is_ascii_digit, is_ascii_alphanumeric}
use fast_dav_rs.Base.Slices.{byte_at}
use fast_dav_rs.Base.Text.Number.{decimal}
use fast_dav_rs.Base.Utf8.{as_bytes}

-- What the loop of `escape_xml` pushes for one character.
unfoldable pub escape_char : ℕ → Text
escape_char c =
    if c == b'&'
    then codes "&amp;"
    else if c == b'<'
    then codes "&lt;"
    else if c == b'>'
    then codes "&gt;"
    else if c == b'"'
    then codes "&quot;"
    else if c == 39
    then codes "&apos;"
    else c ∷ []

unfoldable pub escape_xml : Text → Text
unfolding escape_char
escape_xml [] = []
escape_xml (c ∷ cs) = escape_char c ++ escape_xml cs

unfoldable pub is_component_char : ℕ → Bool
is_component_char c = is_ascii_alphanumeric c || c == b'-'

-- The outcome of the search for a character that is not allowed.
abbrev pub reject_found : Option ℕ → Result (Unit {0})
reject_found none = ok tt
reject_found (some bad) = err invalid_character

unfoldable pub validate_component_name : Text → Result (Unit {0})
unfolding is_component_char
validate_component_name [] = err empty_component_name
validate_component_name (c ∷ cs) = reject_found (find (λ d. not (is_component_char d)) (c ∷ cs))

unfoldable pub structurally_valid : Bytes → Bool
structurally_valid bytes =
    length bytes == 16
    && all is_ascii_digit (take 8 bytes)
    && byte_at bytes 8 == b'T'
    && all is_ascii_digit (take 6 (drop 9 bytes))
    && byte_at bytes 15 == b'Z'

unfoldable pub validate_utc_datetime : Text → Result (Unit {0})
validate_utc_datetime value =
    if not (structurally_valid (as_bytes value)) then err invalid_datetime else ok tt

abbrev sync_token_element : Option Text → Text
sync_token_element (some token) =
    codes "<D:sync-token>" ++ (escape_xml token ++ codes "</D:sync-token>")
sync_token_element none = codes "<D:sync-token/>"

abbrev limit_element : Option ℕ → Text
limit_element (some limit) =
    codes "<D:limit><D:nresults>" ++ (decimal limit ++ codes "</D:nresults></D:limit>")
limit_element none = []

abbrev data_element_tag : Bool → Text → Text
data_element_tag include_data name =
    if include_data then codes "<C:" ++ (name ++ codes "/>") else []

unfoldable pub build_sync_collection_body : Option Text → Option ℕ → Bool → Text → Text → Text
build_sync_collection_body sync_token limit include_data namespace data_element =
    codes "<D:sync-collection xmlns:D=\"DAV:\" xmlns:C=\""
    ++ (namespace
        ++ (codes "\">"
            ++ (sync_token_element sync_token
                ++ (codes "<D:sync-level>1</D:sync-level>"
                    ++ (codes "<D:prop><D:getetag/>"
                        ++ (data_element_tag include_data data_element
                            ++ (codes "</D:prop>"
                                ++ (limit_element limit ++ codes "</D:sync-collection>"))))))))
