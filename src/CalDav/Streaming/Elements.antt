-- ===== src/CalDav/Streaming/Elements.antt =====
-- The element names of src/caldav/streaming.rs.
use fast_dav_rs.Base.{ℕ, Bool, List, [], ◌∷◌, ◌==◌}
use fast_dav_rs.Base.Text.{Text, Bytes, codes}
use fast_dav_rs.WebDav.Streaming.Elements.{local_name, first_match}

pub data ElementName : Type 0 where
  multistatus response propstat prop : ElementName
  href status displayname getetag : ElementName
  resourcetype collection calendar supported_calendar_component_set : ElementName
  comp calendar_data calendar_description calendar_timezone : ElementName
  calendar_color sync_token calendar_home_set current_user_principal : ElementName
  owner getcontenttype getlastmodified other : ElementName

abbrev pub element_table : List (Text × ElementName)
element_table =
    (codes "multistatus", multistatus)
    ∷ (codes "response", response)
    ∷ (codes "propstat", propstat)
    ∷ (codes "prop", prop)
    ∷ (codes "href", href)
    ∷ (codes "status", status)
    ∷ (codes "displayname", displayname)
    ∷ (codes "getetag", getetag)
    ∷ (codes "resourcetype", resourcetype)
    ∷ (codes "collection", collection)
    ∷ (codes "calendar", calendar)
    ∷ (codes "supported-calendar-component-set", supported_calendar_component_set)
    ∷ (codes "comp", comp)
    ∷ (codes "calendar-data", calendar_data)
    ∷ (codes "calendar-description", calendar_description)
    ∷ (codes "calendar-timezone", calendar_timezone)
    ∷ (codes "calendar-color", calendar_color)
    ∷ (codes "sync-token", sync_token)
    ∷ (codes "calendar-home-set", calendar_home_set)
    ∷ (codes "current-user-principal", current_user_principal)
    ∷ (codes "owner", owner)
    ∷ (codes "getcontenttype", getcontenttype)
    ∷ (codes "getlastmodified", getlastmodified)
    ∷ []

unfoldable pub element_from_bytes : Bytes → ElementName
unfolding local_name first_match
element_from_bytes raw = first_match element_table other (local_name raw)

-- The position of the variant in its declaration, by which the derived `==` compares.
unfoldable pub element_index : ElementName → ℕ
element_index multistatus = 0
element_index response = 1
element_index propstat = 2
element_index prop = 3
element_index href = 4
element_index status = 5
element_index displayname = 6
element_index getetag = 7
element_index resourcetype = 8
element_index collection = 9
element_index calendar = 10
element_index supported_calendar_component_set = 11
element_index comp = 12
element_index calendar_data = 13
element_index calendar_description = 14
element_index calendar_timezone = 15
element_index calendar_color = 16
element_index sync_token = 17
element_index calendar_home_set = 18
element_index current_user_principal = 19
element_index owner = 20
element_index getcontenttype = 21
element_index getlastmodified = 22
element_index other = 23

unfoldable pub element_eq : ElementName → ElementName → Bool
unfolding element_index
element_eq a b = element_index a == element_index b
