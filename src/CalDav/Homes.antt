-- ===== src/CalDav/Homes.antt =====
-- The home sets that `discover_calendar_home_set` of src/caldav/client.rs returns.
use mathlib.Core.List.{append-nil, append_assoc}
use fast_dav_rs.Base.{◌≡◌, sym, ◌∙◌, ◌↔◌, List, [], ◌∷◌, ◌++◌, All}
use fast_dav_rs.Base.Text.{Text}
use fast_dav_rs.Base.Dedup.{IsAscending, dedup-sort_by-All, dedup-sort_by-IsAscending}
use fast_dav_rs.CalDav.Types.{DavItem}
use fast_dav_rs.CalDav.Client.{collect_homes, sorted_homes}

-- The home sets of all items.
abbrev pub homes_of : List DavItem → List Text
homes_of [] = []
homes_of (item ∷ items) = item.calendar_home_set ++ homes_of items

collect_homes-homes_of :
    (items : List DavItem) (homes : List Text) → collect_homes homes items ≡ homes ++ homes_of items
unfolding collect_homes
collect_homes-homes_of [] homes = sym (append-nil homes)
collect_homes-homes_of (item ∷ items) homes =
    collect_homes-homes_of items _ ∙ append_assoc homes item.calendar_home_set (homes_of items)

-- The home sets come in strictly ascending order, so that none is there twice, and they have a
-- property exactly if all home sets of the items have it: they are the same ones.
pub sorted_homes-IsAscending :
    (items : List DavItem) (P : Text → Type 0)
    → IsAscending (sorted_homes items) × (All P (sorted_homes items) ↔ All P (homes_of items))
unfolding sorted_homes
sorted_homes-IsAscending items P =
    rw (collect_homes-homes_of items [])
      (dedup-sort_by-IsAscending (homes_of items), dedup-sort_by-All P (homes_of items))
