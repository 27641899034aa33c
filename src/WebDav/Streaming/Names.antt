-- ===== src/WebDav/Streaming/Names.antt =====
-- How two chains of name tests relate, and that the derived `==` of elements is equality.
use fast_dav_rs.Base.{
  ◌≡◌, refl, ◌∙◌, sym, ap, ◌↔◌, true, false, List, [], ◌∷◌, ==_iff, inl, inr, Bool-cases, All, any,
  get_or,
}
use fast_dav_rs.Base.Text.{Text, Bytes, eq_ignore_ascii_case, text_eq, to_ascii_lowercase}
use fast_dav_rs.Base.Text.Laws.{eq_ignore_ascii_case_iff, text_eq_iff}
use fast_dav_rs.WebDav.Streaming.Elements.{
  first_match, CommonElement, multistatus, other, response, propstat, prop, href, status,
  displayname, getetag, resourcetype, collection, sync_token, current_user_principal, owner,
  getcontenttype, getlastmodified, common_index, common_eq,
}

-- A test sees only the lower case of the name.
same_tests :
    (a b name : Bytes)
    → to_ascii_lowercase a ≡ to_ascii_lowercase b
    → eq_ignore_ascii_case a name ≡ eq_ignore_ascii_case b name
unfolding eq_ignore_ascii_case
same_tests a b name e = ap (λ s. text_eq s (to_ascii_lowercase name)) e

module _ {E : Type 0} where
  first_match-lowercase :
      (t : List (Text × E)) (d : E) (a b : Bytes)
      → to_ascii_lowercase a ≡ to_ascii_lowercase b
      → first_match t d a ≡ first_match t d b
  unfolding first_match
  first_match-lowercase [] d a b e = refl
  first_match-lowercase ((name, x) ∷ t) d a b e =
      rw (same_tests a b name e) (rw (first_match-lowercase t d a b e))

  -- None of the names of the table is the name.
  abbrev pub Misses : Bytes → List (Text × E) → Type 0
  Misses local = All (λ entry. eq_ignore_ascii_case local entry.0 ≡ false)

  first_match-Misses :
      (t : List (Text × E)) (d : E) (local : Bytes) → Misses local t → first_match t d local ≡ d
  unfolding first_match
  first_match-Misses [] d local h = refl
  first_match-Misses ((name, x) ∷ t) d local h = rw h.0 (first_match-Misses t d local h.1)

module _ {E : Type 0} where
  Misses-any :
      (big : List (Text × E)) (local name : Bytes)
      → Misses local big
      → any (λ entry. text_eq entry.0 name) big ≡ true
      → eq_ignore_ascii_case local name ≡ false
  Misses-any [] local name h k = absurd (cc k)
  Misses-any ((n, x) ∷ big) local name h k = elim (Bool-cases (text_eq n name)) [
    | inl e ↦ rw (← (text_eq_iff n name).0 e) (h.0)
    | inr e ↦ Misses-any big local name h.1 (rw e at k)
  ]

module _ {E D : Type 0} where
  -- The names of the first table are names of the second.
  abbrev Covers : List (Text × D) → List (Text × E) → Type 0
  Covers small big =
      All (λ entry. any (λ other_entry. text_eq other_entry.0 entry.0) big ≡ true) small

  Misses-Covers :
      (small : List (Text × D)) (big : List (Text × E)) (local : Bytes)
      → Covers small big
      → Misses local big
      → Misses local small
  Misses-Covers [] big local c h = tt
  Misses-Covers ((n, x) ∷ small) big local c h =
      (Misses-any big local n h c.0, Misses-Covers small big local c.1 h)

  module _ (f : E → D) (small : List (Text × D)) (d : D) (e : E) (local : Bytes) where
    -- At each name of the big table the small one has the image of its element.
    abbrev Agrees : List (Text × E) → Type 0
    Agrees = All (λ entry. first_match small d entry.0 ≡ f entry.1)

    first_match-Agrees :
        (big : List (Text × E))
        → Agrees big
        → (Misses local big → first_match small d local ≡ f e)
        → first_match small d local ≡ f (first_match big e local)
    unfolding first_match
    first_match-Agrees [] a missed = missed tt
    first_match-Agrees ((n, x) ∷ big) a missed = elim (Bool-cases (eq_ignore_ascii_case local n)) [
      | inl same ↦
          rw same (
            first_match-lowercase small d local n ((eq_ignore_ascii_case_iff local n).0 same) ∙ a.0)
      | inr differs ↦ rw differs (first_match-Agrees big a.1 (λ h. missed (differs, h)))
    ]

  -- Two chains that agree on every name of the bigger one agree everywhere.
  pub first_match-refines :
      (f : E → D) (small : List (Text × D)) (big : List (Text × E)) (d : D) (e : E)
      → f e ≡ d
      → All (λ entry. first_match small d entry.0 ≡ f entry.1) big
      → All (λ entry. any (λ other_entry. text_eq other_entry.0 entry.0) big ≡ true) small
      → (local : Bytes) → first_match small d local ≡ f (first_match big e local)
  first_match-refines f small big d e same agrees covers local =
      first_match-Agrees f small d e local big agrees
        λ h. first_match-Misses small d local (Misses-Covers small big local covers h) ∙ sym same

abbrev common_elements : List CommonElement
common_elements =
    multistatus ∷ response ∷ propstat ∷ prop ∷ href ∷ status ∷ displayname ∷ getetag ∷ resourcetype
    ∷ collection ∷ sync_token ∷ current_user_principal ∷ owner ∷ getcontenttype ∷ getlastmodified
    ∷ other ∷ []

common_at-common_index : (e : CommonElement) → get_or common_elements (common_index e) other ≡ e
unfolding common_index
common_at-common_index multistatus = refl
common_at-common_index _ = refl

-- The derived `==` is equality.
pub common_eq_iff : (a b : CommonElement) → (common_eq a b ≡ true) ↔ (a ≡ b)
unfolding common_eq
common_eq_iff a b = (
  (λ h.
      sym (common_at-common_index a)
      ∙ ap (λ i. get_or common_elements i other) ((==_iff _ _).0 h)
      ∙ common_at-common_index b),
  (λ h. (==_iff _ _).1 (ap common_index h)),
)
