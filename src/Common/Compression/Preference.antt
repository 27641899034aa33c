-- ===== src/Common/Compression/Preference.antt =====
-- `detect_request_compression_preference` of src/common/compression.rs.
pub mod Best
use fast_dav_rs.Base.{
  Bool, true, false, not, ◌&&◌, List, [], ◌∷◌, ◌++◌, Option, none, some, is_empty, find_map,
  or_option, if◌then◌else◌, ◌>>=?◌, unwrap_or,
}
use fast_dav_rs.Base.Text.{
  Text, codes, text_eq, to_lower, to_ascii_lowercase, eq_ignore_ascii_case, trim,
}
use fast_dav_rs.Base.Text.Split.{split, split_once}
use fast_dav_rs.WebDav.Headers.{HeaderApi}
use fast_dav_rs.Common.Compression.Codec.{ContentEncoding, identity, br, gzip, zstd}
use fast_dav_rs.Common.Compression.Weights.{F32Api}
use fast_dav_rs.Common.Compression.{as_str}

module _ (floats : F32Api) where
  open floats use {F32, one, parse, clamp, le_zero, gt_zero, exceeds}

  -- The variables of the loop over the parts of the header.
  pub record Preferences : Type 0 where
    pub wildcard_q : Option F32
    pub identity_q : F32
    pub identity_explicit : Bool
    pub entries : List (Text × F32)

  -- The weight that a parameter `key=value` gives, if it is a readable `q`.
  abbrev parameter_weight : Text × Text → Option F32
  parameter_weight (key, value) =
      if eq_ignore_ascii_case (trim key) (codes "q") then parse (trim value) else none

  -- The loop over the parameters of one part: the last readable `q` counts.
  unfoldable pub read_weight : F32 → List Text → F32
  read_weight weight [] = weight
  read_weight weight (param ∷ params) =
      read_weight
        (elim (split_once b'=' param >>=? parameter_weight) [
          | none ↦ weight
          | some parsed ↦ clamp parsed
        ])
        params

  -- The `match token.as_str()`.
  unfoldable pub record_weight : Preferences → Text → F32 → Preferences
  record_weight s token weight =
      if text_eq token (codes "identity")
      then record s { identity_q = weight; identity_explicit = true }
      else if text_eq token (codes "*")
      then record s { wildcard_q = some weight }
      else record s { entries = s.entries ++ (token, weight) ∷ [] }

  -- The token and the parameters of a part that is trimmed and not empty.
  unfoldable pub read_segments : Preferences → List Text → Preferences
  read_segments s [] = s
  read_segments s (first ∷ params) =
      let token = to_ascii_lowercase (trim first) in
      if is_empty token then s else record_weight s token (read_weight one params)

  unfoldable pub read_part : Preferences → Text → Preferences
  read_part s part = if is_empty (trim part) then s else read_segments s (split b';' (trim part))

  unfoldable pub read_parts : Preferences → List Text → Preferences
  read_parts s [] = s
  read_parts s (part ∷ parts) = read_parts (read_part s part) parts

  abbrev initial : Preferences
  initial = record { wildcard_q = none; identity_q = one; identity_explicit = false; entries = [] }

  -- `identity` inherits the weight of `*` unless it has its own.
  unfoldable pub effective_identity : Preferences → F32
  effective_identity s =
      if s.identity_explicit then s.identity_q else unwrap_or s.wildcard_q s.identity_q

  -- `effective_q`: the candidate's own weight, or that of `*`
  unfoldable pub effective : Preferences → ContentEncoding → Option F32
  effective s candidate =
      or_option
        (find_map
          (λ (entry : Text × F32).
            if text_eq entry.0 (as_str candidate) then some entry.1 else none)
          s.entries)
        s.wildcard_q

  -- One round of the loop over the candidates.
  abbrev pub consider_weight :
      Option (ContentEncoding × F32) → ContentEncoding → F32 → Option (ContentEncoding × F32)
  consider_weight none candidate q = if le_zero q then none else some (candidate, q)
  consider_weight (some (best, best_q)) candidate q =
      if le_zero q
      then some (best, best_q)
      else if exceeds q best_q
      then some (candidate, q)
      else some (best, best_q)

  unfoldable pub consider :
      Preferences
      → Option (ContentEncoding × F32)
      → ContentEncoding
      → Option (ContentEncoding × F32)
  consider s best candidate = elim (effective s candidate) [
    | none ↦ best
    | some q ↦ consider_weight best candidate q
  ]

  unfoldable pub best_candidate :
      Preferences
      → Option (ContentEncoding × F32)
      → List ContentEncoding
      → Option (ContentEncoding × F32)
  best_candidate s best [] = best
  best_candidate s best (candidate ∷ rest) = best_candidate s (consider s best candidate) rest

  abbrev pub candidates : List ContentEncoding
  candidates = br ∷ zstd ∷ gzip ∷ []

  -- What stands behind the loop over the header's parts.
  unfoldable pub choose : Preferences → Option ContentEncoding
  choose s = elim (best_candidate s none candidates) [
    | some (encoding, q) ↦ some encoding
    | none ↦ if gt_zero (effective_identity s) then some identity else none
  ]

  unfoldable pub parse_preferences : Text → Preferences
  parse_preferences raw = read_parts initial (split b',' raw)

  module _ (api : HeaderApi) where
    open api use {HeaderMap, get, to_str}

    unfoldable pub detect_request_compression_preference : HeaderMap → Option ContentEncoding
    detect_request_compression_preference headers =
        (get headers (codes "accept-encoding") >>=? to_str) >>=? λ raw.
        choose (parse_preferences raw)
