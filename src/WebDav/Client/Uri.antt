-- ===== src/WebDav/Client/Uri.antt =====
-- The paths that `build_uri` of src/webdav/client.rs makes.
pub mod Rooted
use fast_dav_rs.Base.{Bool, ◌&&◌, [], ◌∷◌, ◌++◌, Option, none, some, ◌==◌, is_empty, if◌then◌else◌}
use fast_dav_rs.Base.Text.{Text}
use fast_dav_rs.Base.Text.Split.{split_once}

-- `trim_end_matches('/')`
unfoldable pub trim_slashes : Text → Text
trim_slashes [] = []
trim_slashes (c ∷ cs) =
    let rest = trim_slashes cs in if is_empty rest && c == b'/' then [] else c ∷ rest

-- The path before the query. A relative one is put behind the path of the base and one slash.
unfoldable pub combine_paths : Text → Text → Text
combine_paths existing [] = existing
combine_paths existing (c ∷ cs) =
    if c == b'/' then c ∷ cs else trim_slashes existing ++ (b'/' ∷ c ∷ cs)

-- A path is not left empty.
abbrev pub root : Text → Text
root [] = b'/' ∷ []
root (c ∷ cs) = c ∷ cs

-- The path that `build_uri` parses when there is no scheme, with the query put back.
unfoldable pub target_path : Text → Text → Text
target_path existing path = elim (split_once b'?' path) [
  | none ↦ root (combine_paths existing path)
  | some (path_only, query) ↦ root (combine_paths existing path_only) ++ (b'?' ∷ query)
]
