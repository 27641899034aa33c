-- ===== src/CardDav/Types.antt =====
-- src/carddav/types.rs
use fast_dav_rs.Base.{Bool, false, List, [], Option, none}
use fast_dav_rs.Base.Text.{Text}
use fast_dav_rs.WebDav.Types.{DavItemCommon}

pub record DavItem : Type 0 where
  pub href : Text
  pub status : Option Text
  pub displayname : Option Text
  pub etag : Option Text
  pub is_collection : Bool
  pub is_addressbook : Bool
  pub supported_address_data : List Text
  pub address_data : Option Text
  pub addressbook_home_set : List Text
  pub current_user_principal : List Text
  pub owner : Option Text
  pub addressbook_description : Option Text
  pub addressbook_color : Option Text
  pub sync_token : Option Text
  pub content_type : Option Text
  pub last_modified : Option Text

-- `DavItem::new`
abbrev pub new_item : DavItem
new_item = record {
  href = [];
  status = none;
  displayname = none;
  etag = none;
  is_collection = false;
  is_addressbook = false;
  supported_address_data = [];
  address_data = none;
  addressbook_home_set = [];
  current_user_principal = [];
  owner = none;
  addressbook_description = none;
  addressbook_color = none;
  sync_token = none;
  content_type = none;
  last_modified = none;
}

unfoldable pub apply_common : DavItem → DavItemCommon → DavItem
apply_common item common = record item {
  href = common.href;
  status = common.status;
  displayname = common.displayname;
  etag = common.etag;
  is_collection = common.is_collection;
  sync_token = common.sync_token;
  current_user_principal = common.current_user_principal;
  owner = common.owner;
  content_type = common.content_type;
  last_modified = common.last_modified;
}

pub record AddressBookInfo : Type 0 where
  pub href : Text
  pub displayname : Option Text
  pub description : Option Text
  pub color : Option Text
  pub etag : Option Text
  pub sync_token : Option Text
  pub supported_address_data : List Text

pub record AddressObject : Type 0 where
  pub href : Text
  pub etag : Option Text
  pub address_data : Option Text
  pub status : Option Text

pub record SyncItem : Type 0 where
  pub href : Text
  pub etag : Option Text
  pub address_data : Option Text
  pub status : Option Text
  pub is_deleted : Bool

pub record SyncResponse : Type 0 where
  pub sync_token : Option Text
  pub items : List SyncItem
