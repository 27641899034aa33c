-- ===== src/CalDav/Types.antt =====
-- src/caldav/types.rs
use fast_dav_rs.Base.{Bool, false, List, [], Option, none}
use fast_dav_rs.Base.Text.{Text}
use fast_dav_rs.WebDav.Types.{DavItemCommon}

pub record DavItem : Type 0 where
  pub href : Text
  pub status : Option Text
  pub displayname : Option Text
  pub etag : Option Text
  pub is_collection : Bool
  pub is_calendar : Bool
  pub supported_components : List Text
  pub calendar_data : Option Text
  pub calendar_home_set : List Text
  pub current_user_principal : List Text
  pub owner : Option Text
  pub calendar_description : Option Text
  pub calendar_timezone : Option Text
  pub calendar_color : Option Text
  pub sync_token : Option Text
  pub content_type : Option Text
  pub last_modified : Option Text

-- `DavItem::new`
abbrev pub new_item : DavItem
new_item = record {
  href = [];
  status = none;
  displayname = none;
  etag = none;
  is_collection = false;
  is_calendar = false;
  supported_components = [];
  calendar_data = none;
  calendar_home_set = [];
  current_user_principal = [];
  owner = none;
  calendar_description = none;
  calendar_timezone = none;
  calendar_color = none;
  sync_token = none;
  content_type = none;
  last_modified = none;
}

unfoldable pub apply_common : DavItem → DavItemCommon → DavItem
apply_common item common = record item {
  href = common.href;
  status = common.status;
  displayname = common.displayname;
  etag = common.etag;
  is_collection = common.is_collection;
  sync_token = common.sync_token;
  current_user_principal = common.current_user_principal;
  owner = common.owner;
  content_type = common.content_type;
  last_modified = common.last_modified;
}

pub record CalendarInfo : Type 0 where
  pub href : Text
  pub displayname : Option Text
  pub description : Option Text
  pub timezone : Option Text
  pub color : Option Text
  pub etag : Option Text
  pub sync_token : Option Text
  pub supported_components : List Text

pub record CalendarObject : Type 0 where
  pub href : Text
  pub etag : Option Text
  pub calendar_data : Option Text
  pub status : Option Text

pub record SyncItem : Type 0 where
  pub href : Text
  pub etag : Option Text
  pub calendar_data : Option Text
  pub status : Option Text
  pub is_deleted : Bool

pub record SyncResponse : Type 0 where
  pub sync_token : Option Text
  pub items : List SyncItem
