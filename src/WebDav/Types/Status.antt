-- ===== src/WebDav/Types/Status.antt =====
-- `http_status_code` of src/webdav/types.rs finds the first token that is a status code.
use fast_dav_rs.Base.{
  ℕ, ◌≤◌, ◌≡◌, ◌↔◌, ◌∙◌, refl, inl, inr, List, [], ◌∷◌, ◌++◌, none, some, arith, find_map,
  Option-cases, All, ap,
}
use fast_dav_rs.Base.Text.{Text}
use fast_dav_rs.Base.Text.Split.{split_ascii_whitespace}
use fast_dav_rs.Base.Text.Number.{parse_u16}
use fast_dav_rs.WebDav.Types.{token_code, http_status_code}

-- The token reads as a 16-bit number in 100..=599.
abbrev pub IsCode : Text → ℕ → Type 0
IsCode token code = (parse_u16 token ≡ some code) × (100 ≤ code) × (code ≤ 599)

-- The first token with a code stands behind tokens that have none.
pub record FirstCode (tokens : List Text) (code : ℕ) : Type 0 where
  pub before : List Text
  pub token : Text
  pub after : List Text
  pub splits : tokens ≡ before ++ token ∷ after
  pub none_before : All (λ t. (c : ℕ) → ¬ IsCode t c) before
  pub reads : IsCode token code

token_code_iff : (t : Text) (code : ℕ) → (token_code t ≡ some code) ↔ IsCode t code
unfolding token_code
token_code_iff t code = ((λ h. ground arith), (λ h. ground arith))

no-IsCode_iff : (t : Text) → (token_code t ≡ none) ↔ ((c : ℕ) → ¬ IsCode t c)
no-IsCode_iff t = (
  (λ e c reads. absurd (cc (e, (token_code_iff t c).1 reads))),
  λ h. elim (Option-cases (token_code t)) [
    | inl e ↦ e
    | inr (c, e) ↦ absurd (h c ((token_code_iff t c).0 e))
  ],
)

find_map-FirstCode :
    (tokens : List Text) {code : ℕ} → find_map token_code tokens ≡ some code → FirstCode tokens code
find_map-FirstCode [] h = absurd (cc h)
find_map-FirstCode (t ∷ ts) {code} h = elim (Option-cases (token_code t)) [
  | inl e ↦
      let f : FirstCode ts code = find_map-FirstCode ts (rw (e, find_map) at h) in
      record {
        before = t ∷ f.before;
        token = f.token;
        after = f.after;
        splits = ap (◌∷◌ t) f.splits;
        none_before = ((no-IsCode_iff t).0 e, f.none_before);
        reads = f.reads;
      }
  | inr (c, e) ↦
      let same : token_code t ≡ some code = cc (e, rw (e, find_map) at h) in
      record {
        before = [];
        token = t;
        after = ts;
        splits = refl;
        none_before = tt;
        reads = (token_code_iff t code).0 same;
      }
]

find_map-skips :
    (before after : List Text)
    → All (λ t. (c : ℕ) → ¬ IsCode t c) before
    → find_map token_code (before ++ after) ≡ find_map token_code after
find_map-skips [] after h = refl
find_map-skips (t ∷ before) after h =
    rw ((no-IsCode_iff t).1 h.0, find_map) (find_map-skips before after h.1)

FirstCode-find_map :
    (tokens : List Text) {code : ℕ} → FirstCode tokens code → find_map token_code tokens ≡ some code
FirstCode-find_map tokens {code} f =
    ap (find_map token_code) f.splits
    ∙ find_map-skips f.before (f.token ∷ f.after) f.none_before
    ∙ rw ((token_code_iff f.token code).1 f.reads, find_map) refl

-- A code is the value of the first token of the line that reads as a 16-bit number in 100..=599.
pub http_status_code_iff :
    (line : Text) (code : ℕ)
    → (http_status_code line ≡ some code) ↔ FirstCode (split_ascii_whitespace line) code
unfolding http_status_code
http_status_code_iff line code = (find_map-FirstCode _, FirstCode-find_map _)
