-- ===== src/Tests/MappingRuns.antt =====
-- Runs of the functions that map parsed items, and of `http_status_code`.
use mathlib.Core.List.{Perm}
use fast_dav_rs.Base.{◌≢◌, ◌≡◌, ◌↔◌, true, some, List, [], ◌∷◌, map, keep, All}
use fast_dav_rs.Base.Dedup.{IsAscending}
use fast_dav_rs.Base.Sort.{IsSortedBy}
use fast_dav_rs.Base.Text.{codes}
use fast_dav_rs.CalDav.Client.{sorted_homes}
use fast_dav_rs.CalDav.Homes.{homes_of, sorted_homes-IsAscending}
use fast_dav_rs.CalDav.Mapping.{calendar_info, map_calendar_list, sync_item}
use fast_dav_rs.CalDav.Mapping.Laws.{is_calendar, IsGone, map_calendar_list_lem, is_deleted_iff}
use fast_dav_rs.CalDav.Types.{DavItem, new_item}

abbrev work : DavItem
work = record new_item { href = codes "/work/"; is_calendar = true; sync_token = some (codes "t1") }

abbrev home_item : DavItem
home_item = record new_item { href = codes "/home/"; is_calendar = true }

abbrev deleted : DavItem
deleted = record new_item {
  href = codes "/work/1.ics";
  status = some (codes "HTTP/1.1 404 Not Found");
}

abbrev items : List DavItem
items = work ∷ deleted ∷ home_item ∷ []

map_calendar_list_lem_example :
    IsSortedBy (λ c. c.href) (map_calendar_list items)
    × Perm (map_calendar_list items) (map calendar_info (keep is_calendar items))
map_calendar_list_lem_example = map_calendar_list_lem items

is_deleted_iff_example : ((sync_item deleted).is_deleted ≡ true) ↔ IsGone deleted.status
is_deleted_iff_example = is_deleted_iff deleted

abbrev principal : DavItem
principal = record new_item { calendar_home_set = codes "/b/" ∷ codes "/a/" ∷ codes "/b/" ∷ [] }

sorted_homes-IsAscending_example :
    IsAscending (sorted_homes (principal ∷ []))
    × (All (λ home. home ≢ []) (sorted_homes (principal ∷ []))
        ↔ All (λ home. home ≢ []) (homes_of (principal ∷ [])))
sorted_homes-IsAscending_example = sorted_homes-IsAscending (principal ∷ []) (λ home. home ≢ [])
