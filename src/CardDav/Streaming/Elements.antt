-- ===== src/CardDav/Streaming/Elements.antt =====
-- The element names of src/carddav/streaming.rs.
use fast_dav_rs.Base.{ℕ, Bool, List, [], ◌∷◌, ◌==◌}
use fast_dav_rs.Base.Text.{Text, Bytes, codes}
use fast_dav_rs.WebDav.Streaming.Elements.{local_name, first_match}

pub data ElementName : Type 0 where
  multistatus response propstat prop : ElementName
  href status displayname getetag : ElementName
  resourcetype collection addressbook supported_address_data : ElementName
  address_data_type address_data addressbook_description addressbook_color : ElementName
  sync_token addressbook_home_set current_user_principal owner : ElementName
  getcontenttype getlastmodified other : ElementName

abbrev pub element_table : List (Text × ElementName)
element_table =
    (codes "multistatus", multistatus)
    ∷ (codes "response", response)
    ∷ (codes "propstat", propstat)
    ∷ (codes "prop", prop)
    ∷ (codes "href", href)
    ∷ (codes "status", status)
    ∷ (codes "displayname", displayname)
    ∷ (codes "getetag", getetag)
    ∷ (codes "resourcetype", resourcetype)
    ∷ (codes "collection", collection)
    ∷ (codes "addressbook", addressbook)
    ∷ (codes "supported-address-data", supported_address_data)
    ∷ (codes "address-data-type", address_data_type)
    ∷ (codes "address-data", address_data)
    ∷ (codes "addressbook-description", addressbook_description)
    ∷ (codes "addressbook-color", addressbook_color)
    ∷ (codes "sync-token", sync_token)
    ∷ (codes "addressbook-home-set", addressbook_home_set)
    ∷ (codes "current-user-principal", current_user_principal)
    ∷ (codes "owner", owner)
    ∷ (codes "getcontenttype", getcontenttype)
    ∷ (codes "getlastmodified", getlastmodified)
    ∷ []

unfoldable pub element_from_bytes : Bytes → ElementName
unfolding local_name first_match
element_from_bytes raw = first_match element_table other (local_name raw)

-- The position of the variant in its declaration, by which the derived `==` compares.
unfoldable pub element_index : ElementName → ℕ
element_index multistatus = 0
element_index response = 1
element_index propstat = 2
element_index prop = 3
element_index href = 4
element_index status = 5
element_index displayname = 6
element_index getetag = 7
element_index resourcetype = 8
element_index collection = 9
element_index addressbook = 10
element_index supported_address_data = 11
element_index address_data_type = 12
element_index address_data = 13
element_index addressbook_description = 14
element_index addressbook_color = 15
element_index sync_token = 16
element_index addressbook_home_set = 17
element_index current_user_principal = 18
element_index owner = 19
element_index getcontenttype = 20
element_index getlastmodified = 21
element_index other = 22

unfoldable pub element_eq : ElementName → ElementName → Bool
unfolding element_index
element_eq a b = element_index a == element_index b
