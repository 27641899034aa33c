-- ===== src/CalDav/Mapping/Laws.antt =====
-- The mapping functions of src/caldav/client.rs against descriptions without loops.
use mathlib.Core.List.{append-nil, append_assoc, Perm}
use fast_dav_rs.Base.{
  ℕ, ◌≡◌, ◌∙◌, sym, ap, ◌↔◌, ◌⊎◌, inl, inr, Bool, true, not, List, [], ◌∷◌, ◌++◌, map, Option, none,
  some, arith, Bool-cases, keep, find_map, or_option,
}
use fast_dav_rs.Base.Sort.{sort_by-perm, IsSortedBy, sort_by-IsSortedBy}
use fast_dav_rs.Base.Text.{Text}
use fast_dav_rs.WebDav.Headers.{HeaderApi}
use fast_dav_rs.Base.Text.Split.{split_ascii_whitespace}
use fast_dav_rs.WebDav.Types.{http_status_code}
use fast_dav_rs.WebDav.Types.Status.{FirstCode, http_status_code_iff}
use fast_dav_rs.CalDav.Types.{DavItem, CalendarInfo, CalendarObject, SyncItem, SyncResponse}
use fast_dav_rs.CalDav.Mapping.{
  gone, calendar_info, collect_calendars, map_calendar_list, calendar_object, collect_objects,
  map_calendar_objects, is_sync_collection, is_deleted_status, sync_item, capture, sync_loop,
  map_sync_response, header_token,
}

abbrev pub is_calendar : DavItem → Bool
is_calendar item = item.is_calendar

collect_calendars-eq :
    (items : List DavItem) (out : List CalendarInfo)
    → collect_calendars out items ≡ out ++ map calendar_info (keep is_calendar items)
unfolding collect_calendars calendar_info
collect_calendars-eq [] out = sym (append-nil out)
collect_calendars-eq (item ∷ items) out = elim (Bool-cases item.is_calendar) [
  | inl e ↦ rw e (collect_calendars-eq items _ ∙ append_assoc out (calendar_info item ∷ []) _)
  | inr e ↦ rw e (collect_calendars-eq items out)
]

-- The calendars come sorted by their hrefs, and are exactly the summaries of the items that are
-- calendars, each as often as it occurs.
pub map_calendar_list_lem :
    (items : List DavItem)
    → IsSortedBy (λ c. c.href) (map_calendar_list items)
      × Perm (map_calendar_list items) (map calendar_info (keep is_calendar items))
unfolding map_calendar_list
map_calendar_list_lem items =
    rw (collect_calendars-eq items [])
      (sort_by-IsSortedBy (λ c. c.href) _, sort_by-perm (λ c. c.href) _)

collect_objects-eq :
    (items : List DavItem) (out : List CalendarObject)
    → collect_objects out items ≡ out ++ map calendar_object items
unfolding collect_objects
collect_objects-eq [] out = sym (append-nil out)
collect_objects-eq (item ∷ items) out =
    collect_objects-eq items _ ∙ append_assoc out (calendar_object item ∷ []) _

-- Every item gives one object, in the order of the items.
pub map_calendar_objects_lem :
    (items : List DavItem) → map_calendar_objects items ≡ map calendar_object items
unfolding map_calendar_objects
map_calendar_objects_lem items = collect_objects-eq items []

abbrev pub token_of : DavItem → Option Text
token_of item = item.sync_token

-- What `sync_loop` makes of the items, without a loop.
abbrev summary : Option Text → List SyncItem → List DavItem → SyncResponse
summary known out items = record {
  sync_token = or_option known (find_map token_of items);
  items = out ++ map sync_item (keep (λ i. not (is_sync_collection i)) items);
}

capture-or :
    (known token rest : Option Text)
    → or_option (capture known token) rest ≡ or_option known (or_option token rest)
unfolding capture
capture-or known token rest = ground arith

first_token :
    (item : DavItem) (items : List DavItem)
    → find_map token_of (item ∷ items) ≡ or_option item.sync_token (find_map token_of items)
first_token item items = ground arith

sync_loop-summary :
    (items : List DavItem) (known : Option Text) (out : List SyncItem)
    → sync_loop known out items ≡ summary known out items
unfolding sync_loop
sync_loop-summary [] none out = rw append-nil
sync_loop-summary [] (some t) out = rw append-nil
sync_loop-summary (item ∷ items) known out =
    let token : or_option (capture known item.sync_token) (find_map token_of items)
        ≡ or_option known (find_map token_of (item ∷ items)) =
      capture-or known item.sync_token _ ∙ ap (or_option known) (sym (first_token item items)) in
    elim (Bool-cases (is_sync_collection item)) [
      | inl e ↦ rw e (sync_loop-summary items (capture known item.sync_token) out ∙ rw token)
      | inr e ↦ rw e (
          sync_loop-summary items (capture known item.sync_token) (out ++ sync_item item ∷ [])
          ∙ rw (token, append_assoc))
    ]

or_option_assoc : (a b c : Option Text) → or_option (or_option a b) c ≡ or_option a (or_option b c)
or_option_assoc a b c = ground arith

module _ (api : HeaderApi) where
  open api use {HeaderMap}

  pub map_sync_response_lem :
      (headers : HeaderMap) (items : List DavItem) (top : Option Text)
      → map_sync_response api headers items top ≡ record {
        sync_token = or_option top (or_option (header_token api headers) (find_map token_of items));
        items = map sync_item (keep (λ i. not (is_sync_collection i)) items);
      }
  unfolding map_sync_response
  map_sync_response_lem headers items top =
      sync_loop-summary items (or_option top (header_token api headers)) []
      ∙ rw (or_option_assoc top (header_token api headers) (find_map token_of items))

gone_iff : (code : Option ℕ) → (gone code ≡ true) ↔ ((code ≡ some 404) ⊎ (code ≡ some 410))
gone_iff none = ((λ h. absurd (cc h)), (λ h. elim h [ inl e ↦ cc | inr e ↦ cc ]))
gone_iff (some n) = ((λ h. ground arith), (λ h. ground arith))

-- The first token of the status that reads as a code from 100 to 599 is 404 or 410.
abbrev pub IsGone : Option Text → Type 0
IsGone none = ⊥
IsGone (some t) =
    FirstCode (split_ascii_whitespace t) 404 ⊎ FirstCode (split_ascii_whitespace t) 410

is_deleted_status_iff : (status : Option Text) → (is_deleted_status status ≡ true) ↔ IsGone status
unfolding is_deleted_status
is_deleted_status_iff none = ((λ h. cc), (λ h. absurd h))
is_deleted_status_iff (some t) = (
  λ h. elim ((gone_iff (http_status_code t)).0 h) [
    | inl e ↦ inl ((http_status_code_iff t 404).0 e)
    | inr e ↦ inr ((http_status_code_iff t 410).0 e)
  ],
  λ h. (gone_iff (http_status_code t)).1 (elim h [
    | inl f ↦ inl ((http_status_code_iff t 404).1 f)
    | inr f ↦ inr ((http_status_code_iff t 410).1 f)
  ]),
)

-- An item counts as deleted exactly when it has a status, and the first of the tokens of the status
-- that reads as a code from 100 to 599 is 404 or 410.
pub is_deleted_iff : (item : DavItem) → ((sync_item item).is_deleted ≡ true) ↔ IsGone item.status
unfolding sync_item
is_deleted_iff item = is_deleted_status_iff item.status
