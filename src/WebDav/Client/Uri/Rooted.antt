-- ===== src/WebDav/Client/Uri/Rooted.antt =====
-- The paths that `build_uri` of src/webdav/client.rs makes are absolute.
use fast_dav_rs.Base.{
  ◌≡◌, refl, ap, Bool-cases, ==_iff, inl, inr, [], ◌∷◌, ◌++◌, Option-cases, ◌==◌, is_empty,
}
use fast_dav_rs.Base.Text.{Text}
use fast_dav_rs.Base.Text.Split.{split_once}
use fast_dav_rs.WebDav.Client.Uri.{trim_slashes, combine_paths, root, target_path}

-- The path starts with `/`.
abbrev pub IsRooted : Text → Type 0
IsRooted p = (rest : Text) × (p ≡ b'/' ∷ rest)

append-IsRooted : (p tail : Text) → IsRooted p → IsRooted (p ++ tail)
append-IsRooted p tail (rest, e) = (rest ++ tail, ap (λ q. q ++ tail) e)

root-IsRooted : (p : Text) → IsRooted p → IsRooted (root p)
root-IsRooted [] h = ([], refl)
root-IsRooted (c ∷ cs) h = h

-- What is left of an absolute path can be put before a slash.
trim_slashes-IsRooted : (p tail : Text) → IsRooted p → IsRooted (trim_slashes p ++ (b'/' ∷ tail))
trim_slashes-IsRooted p tail (rest, e) = rw e (
    unfold trim_slashes in
    elim (Bool-cases (is_empty (trim_slashes rest))) [
      | inl bare ↦ rw bare (tail, refl)
      | inr more ↦ rw more (trim_slashes rest ++ (b'/' ∷ tail), refl)
    ])

combine_paths-IsRooted :
    (existing path : Text) → IsRooted existing → IsRooted (combine_paths existing path)
unfolding combine_paths
combine_paths-IsRooted existing [] h = h
combine_paths-IsRooted existing (c ∷ cs) h = elim (Bool-cases (c == b'/')) [
  | inl slash ↦ rw slash (cs, ap (λ d. d ∷ cs) ((==_iff c b'/').0 slash))
  | inr other ↦ rw other (trim_slashes-IsRooted existing (c ∷ cs) h)
]

-- On a base whose path starts with `/`, every path without a scheme is sent as one that starts with
-- `/`, be it empty, relative, absolute, or only a query.
pub target_path-IsRooted :
    (existing path : Text) → IsRooted existing → IsRooted (target_path existing path)
unfolding target_path
target_path-IsRooted existing path h = elim (Option-cases (split_once b'?' path)) [
  | inl plain ↦
      rw (plain, target_path)
        (root-IsRooted (combine_paths existing path) (combine_paths-IsRooted existing path h))
  | inr ((path_only, query), cut) ↦
      rw (cut, target_path)
        (append-IsRooted (root (combine_paths existing path_only)) (b'?' ∷ query) (
          root-IsRooted (combine_paths existing path_only)
            (combine_paths-IsRooted existing path_only h)))
]
