-- ===== src/WebDav/Streaming.antt =====
-- src/webdav/streaming.rs: the part of the multistatus parser that both clients share.
pub mod Elements
pub mod Names
pub mod Stack
use mathlib.Core.List.{reverse}
use fast_dav_rs.Base.{
  ℕ, suc, Bool, true, ◌&&◌, ◌||◌, List, [], ◌∷◌, ◌++◌, Option, none, some, ◌==◌, is_empty,
  if◌then◌else◌,
}
use fast_dav_rs.Base.Result.{Result, ok, err, mismatched_tag, unopened_tag}
use fast_dav_rs.Base.Text.{Text, Bytes, trim}
use fast_dav_rs.WebDav.Types.{DavItemCommon, default_common}
use Elements.{
  CommonElement, response, propstat, prop, href, status, displayname, getetag, resourcetype,
  collection, sync_token, current_user_principal, owner, getcontenttype, getlastmodified,
  common_element_from_bytes, common_eq,
}

-- `Vec`s of open elements are lists, the last element first.
module _ {ℓ} {A : Type ℓ} (eq : A → A → Bool) where
  abbrev is_prefix : List A → List A → Bool
  is_prefix [] stack = true
  is_prefix (x ∷ xs) [] = Bool.false
  is_prefix (x ∷ xs) (y ∷ ys) = eq y x && is_prefix xs ys

  abbrev pub path_ends_with : List A → List A → Bool
  path_ends_with stack needle = is_prefix (reverse needle) stack

pub record CommonParser : Type 0 where
  pub stack : List CommonElement
  pub current : DavItemCommon

-- `CommonParser::new`
abbrev pub new_common : CommonParser
new_common = record { stack = []; current = default_common }

unfoldable pub common_path : CommonParser → List CommonElement → Bool
unfolding common_eq
common_path p = path_ends_with common_eq p.stack

abbrev property : CommonElement → List CommonElement
property e = response ∷ propstat ∷ prop ∷ e ∷ []

-- The `match element` of `on_start`, behind the push.
abbrev pub common_started : CommonParser → CommonElement → CommonParser
common_started p response = record p { current = default_common }
common_started p collection =
    if common_path p (response ∷ propstat ∷ prop ∷ resourcetype ∷ collection ∷ [])
    then record p { current = record p.current { is_collection = true } }
    else p
common_started p _ = p

unfoldable pub common_on_start : CommonParser → Bytes → CommonParser
common_on_start p raw =
    let element = common_element_from_bytes raw in
    common_started (record p { stack = element ∷ p.stack }) element

abbrev pub common_popped : CommonParser → CommonElement → List CommonElement → Result CommonParser
common_popped p element [] = err unopened_tag
common_popped p element (popped ∷ rest) =
    if common_eq popped element then ok (record p { stack = rest }) else err mismatched_tag

unfoldable pub common_on_end : CommonParser → Bytes → Result CommonParser
common_on_end p raw = common_popped p (common_element_from_bytes raw) p.stack

-- The chain of paths of `on_text`, for text that is trimmed and not empty.
unfoldable pub common_store : CommonParser → Text → DavItemCommon
common_store p trimmed =
    if common_path p (response ∷ href ∷ [])
    then record p.current { href = trimmed }
    else if common_path p (response ∷ status ∷ [])
        || common_path p (response ∷ propstat ∷ status ∷ [])
    then record p.current { status = some trimmed }
    else if common_path p (property displayname)
    then record p.current { displayname = some trimmed }
    else if common_path p (property getetag)
    then record p.current { etag = some trimmed }
    else if common_path p (property sync_token)
    then record p.current { sync_token = some trimmed }
    else if common_path p (response ∷ propstat ∷ prop ∷ current_user_principal ∷ href ∷ [])
    then record p.current {
      current_user_principal = p.current.current_user_principal ++ trimmed ∷ [];
    }
    else if common_path p (response ∷ propstat ∷ prop ∷ owner ∷ href ∷ [])
    then record p.current { owner = some trimmed }
    else if common_path p (property getcontenttype)
    then record p.current { content_type = some trimmed }
    else if common_path p (property getlastmodified)
    then record p.current { last_modified = some trimmed }
    else p.current

unfoldable pub common_on_text : CommonParser → Text → CommonParser
common_on_text p text =
    if is_empty text
    then p
    else if is_empty (trim text)
    then p
    else record p { current = common_store p (trim text) }

-- `finish_response`: `std::mem::take` leaves the default behind.
unfoldable pub finish_response : CommonParser → DavItemCommon × CommonParser
finish_response p = (p.current, record p { current = default_common })
