-- ===== src/CardDav/Streaming/Names.antt =====
-- The two element names that the parser of src/carddav/streaming.rs has for one tag.
use fast_dav_rs.Base.{◌≡◌, refl, ap, ◌∙◌, sym, ◌↔◌, true, List, [], ◌∷◌, arith, get_or, ==_iff}
use fast_dav_rs.Base.Text.{Bytes, text_eq}
use fast_dav_rs.WebDav.Streaming.Elements.{
  CommonElement, common_table, common_element_from_bytes, local_name,
}
use fast_dav_rs.WebDav.Streaming.Names.{first_match-refines}
use fast_dav_rs.CardDav.Streaming.Elements.{
  ElementName, multistatus, response, propstat, prop, href, status, displayname, getetag,
  resourcetype, collection, sync_token, current_user_principal, owner, getcontenttype,
  getlastmodified, addressbook, supported_address_data, address_data_type, address_data,
  addressbook_description, addressbook_color, addressbook_home_set, other, element_table,
  element_from_bytes, element_index, element_eq,
}

-- The variant of the shared parser for a variant of this one.
abbrev pub common_of : ElementName → CommonElement
common_of multistatus = CommonElement.multistatus
common_of response = CommonElement.response
common_of propstat = CommonElement.propstat
common_of prop = CommonElement.prop
common_of href = CommonElement.href
common_of status = CommonElement.status
common_of displayname = CommonElement.displayname
common_of getetag = CommonElement.getetag
common_of resourcetype = CommonElement.resourcetype
common_of collection = CommonElement.collection
common_of sync_token = CommonElement.sync_token
common_of current_user_principal = CommonElement.current_user_principal
common_of owner = CommonElement.owner
common_of getcontenttype = CommonElement.getcontenttype
common_of getlastmodified = CommonElement.getlastmodified
common_of _ = CommonElement.other

-- Both parsers classify a tag alike.
pub common_of-element_from_bytes :
    (raw : Bytes) → common_element_from_bytes raw ≡ common_of (element_from_bytes raw)
unfolding common_element_from_bytes element_from_bytes text_eq
common_of-element_from_bytes raw =
    first_match-refines common_of common_table element_table CommonElement.other other refl
      (ground arith) (ground arith) (local_name raw)

abbrev elements : List ElementName
elements =
    multistatus ∷ response ∷ propstat ∷ prop ∷ href ∷ status ∷ displayname ∷ getetag ∷ resourcetype
    ∷ collection ∷ addressbook ∷ supported_address_data ∷ address_data_type ∷ address_data
    ∷ addressbook_description ∷ addressbook_color ∷ sync_token ∷ addressbook_home_set
    ∷ current_user_principal ∷ owner ∷ getcontenttype ∷ getlastmodified ∷ other ∷ []

element_at-element_index : (e : ElementName) → get_or elements (element_index e) other ≡ e
unfolding element_index
element_at-element_index multistatus = refl
element_at-element_index _ = refl

-- The derived `==` is equality.
pub element_eq_iff : (a b : ElementName) → (element_eq a b ≡ true) ↔ (a ≡ b)
unfolding element_eq
element_eq_iff a b = (
  (λ h.
      sym (element_at-element_index a)
      ∙ ap (λ i. get_or elements i other) ((==_iff _ _).0 h)
      ∙ element_at-element_index b),
  (λ h. (==_iff _ _).1 (ap element_index h)),
)
