-- ===== src/WebDav/Streaming/Elements.antt =====
-- The element names of src/webdav/streaming.rs.
use fast_dav_rs.Base.{ℕ, Bool, List, [], ◌∷◌, Option, none, some, ◌==◌, if◌then◌else◌}
use fast_dav_rs.Base.Text.{Text, Bytes, codes, eq_ignore_ascii_case}

after_colon : Bytes → Option Bytes
after_colon [] = none
after_colon (b ∷ bs) = let later = after_colon bs in if b == b':' then some bs else later

-- What follows the first colon, or all of a name that has none.
unfoldable pub local_name : Bytes → Bytes
unfolding after_colon
local_name raw = elim (after_colon raw) [ none ↦ raw | some rest ↦ rest ]

module _ {E : Type 0} where
  -- A chain of `if local.eq_ignore_ascii_case(name) { element } else if …`, as the table of its
  -- tests and the value of its last branch.
  unfoldable pub first_match : List (Text × E) → E → Bytes → E
  unfolding eq_ignore_ascii_case
  first_match [] other local = other
  first_match ((name, element) ∷ rest) other local =
      if eq_ignore_ascii_case local name then element else first_match rest other local

pub data CommonElement : Type 0 where
  multistatus response propstat prop href status displayname getetag : CommonElement
  resourcetype collection sync_token current_user_principal owner : CommonElement
  getcontenttype getlastmodified other : CommonElement

abbrev pub common_table : List (Text × CommonElement)
common_table =
    (codes "multistatus", multistatus)
    ∷ (codes "response", response)
    ∷ (codes "propstat", propstat)
    ∷ (codes "prop", prop)
    ∷ (codes "href", href)
    ∷ (codes "status", status)
    ∷ (codes "displayname", displayname)
    ∷ (codes "getetag", getetag)
    ∷ (codes "resourcetype", resourcetype)
    ∷ (codes "collection", collection)
    ∷ (codes "sync-token", sync_token)
    ∷ (codes "current-user-principal", current_user_principal)
    ∷ (codes "owner", owner)
    ∷ (codes "getcontenttype", getcontenttype)
    ∷ (codes "getlastmodified", getlastmodified)
    ∷ []

unfoldable pub common_element_from_bytes : Bytes → CommonElement
unfolding local_name first_match
common_element_from_bytes raw = first_match common_table other (local_name raw)

-- The position of the variant in its declaration, by which the derived `==` compares.
unfoldable pub common_index : CommonElement → ℕ
common_index multistatus = 0
common_index response = 1
common_index propstat = 2
common_index prop = 3
common_index href = 4
common_index status = 5
common_index displayname = 6
common_index getetag = 7
common_index resourcetype = 8
common_index collection = 9
common_index sync_token = 10
common_index current_user_principal = 11
common_index owner = 12
common_index getcontenttype = 13
common_index getlastmodified = 14
common_index other = 15

unfoldable pub common_eq : CommonElement → CommonElement → Bool
unfolding common_index
common_eq a b = common_index a == common_index b
