-- ===== src/WebDav/Types.antt =====
-- src/webdav/types.rs
pub mod Status
use fast_dav_rs.Base.{ℕ, Bool, false, List, [], Option, none, some, find_map, within, if◌then◌else◌}
use fast_dav_rs.Base.Result.{Result}
use fast_dav_rs.Base.Text.{Text, codes}
use fast_dav_rs.Base.Text.Number.{parse_u16}
use fast_dav_rs.Base.Text.Split.{split_ascii_whitespace}

pub data Depth : Type 0 where
  zero one infinity : Depth

unfoldable pub depth_as_str : Depth → Text
depth_as_str Depth.zero = codes "0"
depth_as_str Depth.one = codes "1"
depth_as_str infinity = codes "infinity"

pub record BatchItem (T : Type 0) : Type 0 where
  pub pub_path : Text
  pub result : Result T

-- The token as a status code, if it is one.
unfoldable pub token_code : Text → Option ℕ
token_code token = elim (parse_u16 token) [
  | none ↦ none
  | some code ↦ if within 100 599 code then some code else none
]

unfoldable pub http_status_code : Text → Option ℕ
unfolding token_code
http_status_code status_line = find_map token_code (split_ascii_whitespace status_line)

pub record DavItemCommon : Type 0 where
  pub href : Text
  pub status : Option Text
  pub displayname : Option Text
  pub etag : Option Text
  pub is_collection : Bool
  pub sync_token : Option Text
  pub current_user_principal : List Text
  pub owner : Option Text
  pub content_type : Option Text
  pub last_modified : Option Text

-- `DavItemCommon::default`
abbrev pub default_common : DavItemCommon
default_common = record {
  href = [];
  status = none;
  displayname = none;
  etag = none;
  is_collection = false;
  sync_token = none;
  current_user_principal = [];
  owner = none;
  content_type = none;
  last_modified = none;
}
