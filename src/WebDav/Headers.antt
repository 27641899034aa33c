-- ===== src/WebDav/Headers.antt =====
-- The header maps of the http crate, which src/ only calls: an interface with the documented laws.
-- Names are the lower-case texts in which the crate keeps them; `get` gives the first value of a name,
-- `insert` puts one value in place of all, and `remove` takes all.
use mathlib.Core.List.{List, [], ◌∷◌}
use fast_dav_rs.Base.{
  ◌≡◌, refl, Bool, true, Option, none, some, arith, if◌then◌else◌, all, within, ℕ,
}
use fast_dav_rs.Base.Text.{Text, text_eq}
use fast_dav_rs.Base.Text.Laws.{text_eq_iff}

-- The characters that `HeaderValue::to_str` accepts.
abbrev pub is_visible : ℕ → Bool
is_visible = within 32 126

pub record HeaderApi : Type 1 where
  pub HeaderMap : Type 0
  pub HeaderValue : Type 0
  -- `HeaderMap::new`
  pub no_headers : HeaderMap
  pub get : HeaderMap → Text → Option HeaderValue
  pub insert : HeaderMap → Text → HeaderValue → HeaderMap
  pub remove : HeaderMap → Text → HeaderMap
  pub from_str : Text → Option HeaderValue
  pub from_static : Text → HeaderValue
  pub to_str : HeaderValue → Option Text
  pub get-no_headers : (n : Text) → get no_headers n ≡ none
  pub get-insert :
      (h : HeaderMap) (n m : Text) (v : HeaderValue)
      → get (insert h n v) m ≡ (if text_eq n m then some v else get h m)
  pub get-remove :
      (h : HeaderMap) (n m : Text) → get (remove h n) m ≡ (if text_eq n m then none else get h m)
  pub from_str-visible : (s : Text) → all is_visible s ≡ true → from_str s ≡ some (from_static s)
  pub to_str-from_static : (s : Text) → all is_visible s ≡ true → to_str (from_static s) ≡ some s

-- A header map as an association list meets the interface.
abbrev pub Entries : Type 0
Entries = List (Text × Text)

unfoldable pub get_entry : Entries → Text → Option Text
get_entry [] m = none
get_entry ((n, v) ∷ rest) m = if text_eq n m then some v else get_entry rest m

unfoldable pub remove_entry : Entries → Text → Entries
remove_entry [] m = []
remove_entry ((n, v) ∷ rest) m =
    let others = remove_entry rest m in if text_eq n m then others else (n, v) ∷ others

pub get_entry-remove_entry :
    (h : Entries) (n m : Text)
    → get_entry (remove_entry h n) m ≡ (if text_eq n m then none else get_entry h m)
unfolding get_entry remove_entry
get_entry-remove_entry [] n m = ground arith
get_entry-remove_entry ((k, v) ∷ h) n m =
    ground (arith, get_entry-remove_entry h n m, text_eq_iff k n, text_eq_iff k m, text_eq_iff n m)

pub get_entry-insert :
    (h : Entries) (n m v : Text)
    → get_entry ((n, v) ∷ remove_entry h n) m ≡ (if text_eq n m then some v else get_entry h m)
unfolding get_entry
get_entry-insert h n m v = ground (arith, get_entry-remove_entry h n m)

unfoldable pub visible_text : Text → Option Text
visible_text s = if all is_visible s then some s else none

pub visible_text-visible : (s : Text) → all is_visible s ≡ true → visible_text s ≡ some s
unfolding visible_text
visible_text-visible s h = rw h

pub get_entry-nil : (n : Text) → get_entry [] n ≡ none
unfolding get_entry
get_entry-nil n = refl

abbrev pub entries_api : HeaderApi
entries_api = record {
  HeaderMap = Entries;
  HeaderValue = Text;
  no_headers = [];
  get = get_entry;
  insert = λ h n v. (n, v) ∷ remove_entry h n;
  remove = remove_entry;
  from_str = visible_text;
  from_static = λ s. s;
  to_str = visible_text;
  get-no_headers = get_entry-nil;
  get-insert = get_entry-insert;
  get-remove = get_entry-remove_entry;
  from_str-visible = visible_text-visible;
  to_str-from_static = visible_text-visible;
}
