-- ===== src/Base/Dedup.antt =====
-- Sorting and then `Vec::dedup`: what is left ascends strictly, and has the same members.
use mathlib.Core.List.{List, [], ◌∷◌}
use mathlib.Core.Path.{◌≡◌, sym}
use mathlib.Core.Bool.{true, false}
use mathlib.Core.Logic.{◌↔◌, inl, inr}
use fast_dav_rs.Base.Tests.{Bool-cases}
use fast_dav_rs.Base.Lists.{All, All-imp}
use fast_dav_rs.Base.Text.{Text, text_eq, text_le}
use fast_dav_rs.Base.Text.Laws.{text_eq_iff, text_le_antisym, text_le_trans}
use fast_dav_rs.Base.Sort.{insert_by, sort_by, IsSortedBy, sort_by-IsSortedBy, dedup_after, dedup}

-- The first text stands before the second one.
abbrev pub Below : Text → Text → Type 0
Below x y = (text_le x y ≡ true) × (text_eq x y ≡ false)

abbrev pub IsAscending : List Text → Type 0
IsAscending [] = Unit
IsAscending (x ∷ xs) = All (Below x) xs × IsAscending xs

Below-trans : (x y z : Text) → Below x y → Below y z → Below x z
Below-trans x y z (le, ne) (le', ne') = elim (Bool-cases (text_eq x z)) [
  | inl same ↦ absurd (
      cc (
        ne,
        (text_eq_iff x y).1 (text_le_antisym x y le (rw (sym ((text_eq_iff x z).0 same)) at le')),
      ))
  | inr other ↦ (text_le_trans x y z le le', other)
]

abbrev pub itself : Text → Text
itself t = t

dedup_after-IsAscending :
    (x : Text) (ys : List Text)
    → All (λ y. text_le x y ≡ true) ys
    → IsSortedBy itself ys
    → All (Below x) (dedup_after x ys) × IsAscending (dedup_after x ys)
unfolding dedup_after
dedup_after-IsAscending x [] h s = (tt, tt)
dedup_after-IsAscending x (y ∷ ys) h s = elim (Bool-cases (text_eq x y)) [
  | inl same ↦ rw (same, dedup_after) (dedup_after-IsAscending x ys h.1 s.1)
  | inr other ↦
      let rest = dedup_after-IsAscending y ys s.0 s.1 in
      rw (other, dedup_after)
        (
          ((h.0, other), All-imp (λ z. Below-trans x y z (h.0, other)) (dedup_after y ys) rest.0),
          (rest.0, rest.1),
        )
]

pub dedup-IsAscending : (xs : List Text) → IsSortedBy itself xs → IsAscending (dedup xs)
unfolding dedup
dedup-IsAscending [] s = tt
dedup-IsAscending (x ∷ xs) s = dedup_after-IsAscending x xs s.0 s.1

module _ (P : Text → Type 0) where
  dedup_after-All : (x : Text) (ys : List Text) → P x → (All P (dedup_after x ys) ↔ All P ys)
  unfolding dedup_after
  dedup_after-All x [] p = ((λ h. h), (λ h. h))
  dedup_after-All x (y ∷ ys) p = elim (Bool-cases (text_eq x y)) [
    | inl same ↦
        let q : P y = rw ((text_eq_iff x y).0 same) at p in
        let rest = dedup_after-All x ys p in
        rw (same, dedup_after) ((λ h. (q, rest.0 h)), (λ h. rest.1 h.1))
    | inr other ↦
        rw (other, dedup_after)
          (
            (λ h. (h.0, (dedup_after-All y ys h.0).0 h.1)),
            (λ h. (h.0, (dedup_after-All y ys h.0).1 h.1)),
          )
  ]

  dedup-All : (xs : List Text) → All P (dedup xs) ↔ All P xs
  unfolding dedup
  dedup-All [] = ((λ h. h), (λ h. h))
  dedup-All (x ∷ xs) = (
    (λ h. (h.0, (dedup_after-All x xs h.0).0 h.1)),
    (λ h. (h.0, (dedup_after-All x xs h.0).1 h.1)),
  )

  insert_by-All_iff : (x : Text) (ys : List Text) → All P (insert_by itself x ys) ↔ All P (x ∷ ys)
  unfolding insert_by
  insert_by-All_iff x [] = ((λ h. h), (λ h. h))
  insert_by-All_iff x (y ∷ ys) = elim (Bool-cases (text_le x y)) [
    | inl first ↦ rw (first, insert_by) ((λ h. h), (λ h. h))
    | inr later ↦
        let rest = insert_by-All_iff x ys in
        rw (later, insert_by)
          ((λ h. let r = rest.0 h.1 in (r.0, (h.0, r.1))), (λ h. (h.1.0, rest.1 (h.0, h.1.1))))
  ]

  sort_by-All : (xs : List Text) → All P (sort_by itself xs) ↔ All P xs
  unfolding sort_by
  sort_by-All [] = ((λ h. h), (λ h. h))
  sort_by-All (x ∷ xs) =
      let head = insert_by-All_iff x (sort_by itself xs) in
      let rest = sort_by-All xs in
      ((λ h. let r = head.0 h in (r.0, rest.0 r.1)), (λ h. head.1 (h.0, rest.1 h.1)))

  -- The sorted texts without repetitions have a property exactly if the texts have it.
  pub dedup-sort_by-All : (xs : List Text) → All P (dedup (sort_by itself xs)) ↔ All P xs
  dedup-sort_by-All xs =
      let once = dedup-All (sort_by itself xs) in
      let sorted = sort_by-All xs in ((λ h. sorted.0 (once.0 h)), (λ h. once.1 (sorted.1 h)))

pub dedup-sort_by-IsAscending : (xs : List Text) → IsAscending (dedup (sort_by itself xs))
dedup-sort_by-IsAscending xs = dedup-IsAscending (sort_by itself xs) (sort_by-IsSortedBy itself xs)
