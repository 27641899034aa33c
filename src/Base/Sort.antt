-- ===== src/Base/Sort.antt =====
-- The stable sort of the standard library by a text key, and `Vec::dedup`.
use mathlib.Core.List.{Perm}
use mathlib.Core.List.Perm
use mathlib.Core.List.{List, [], ◌∷◌}
use mathlib.Core.Path.{◌≡◌}
use mathlib.Core.Bool.{true, false}
use mathlib.Core.Logic.{inl, inr}
use fast_dav_rs.Base.Tests.{Bool-cases, if◌then◌else◌}
use fast_dav_rs.Base.Lists.{All}
use fast_dav_rs.Base.Text.{Text, text_eq, text_le}
use fast_dav_rs.Base.Text.Laws.{text_le_total, text_le_trans}

module _ {A : Type 0} (key : A → Text) where
  unfoldable pub insert_by : A → List A → List A
  insert_by x [] = x ∷ []
  insert_by x (y ∷ ys) =
      let later = insert_by x ys in if text_le (key x) (key y) then x ∷ y ∷ ys else y ∷ later

  unfoldable pub sort_by : List A → List A
  sort_by [] = []
  sort_by (x ∷ xs) = insert_by x (sort_by xs)

  -- Every element's key is at most the keys behind it.
  abbrev pub IsSortedBy : List A → Type 0
  IsSortedBy [] = Unit
  IsSortedBy (x ∷ xs) = All (λ y. text_le (key x) (key y) ≡ true) xs × IsSortedBy xs

  insert_by-perm : (x : A) (ys : List A) → Perm (insert_by x ys) (x ∷ ys)
  unfolding insert_by
  insert_by-perm x [] = Perm.refl (x ∷ [])
  insert_by-perm x (y ∷ ys) = elim (Bool-cases (text_le (key x) (key y))) [
    | inl e ↦ rw (e, insert_by) (Perm.refl (x ∷ y ∷ ys))
    | inr e ↦ rw (e, insert_by) (Perm.trans (Perm.cons y (insert_by-perm x ys)) (Perm.swap x y ys))
  ]

  pub sort_by-perm : (xs : List A) → Perm (sort_by xs) xs
  unfolding sort_by
  sort_by-perm [] = Perm.refl []
  sort_by-perm (x ∷ xs) = Perm.trans (insert_by-perm x (sort_by xs)) (Perm.cons x (sort_by-perm xs))

  insert_by-All : (P : A → Type 0) (x : A) (ys : List A) → P x → All P ys → All P (insert_by x ys)
  unfolding insert_by
  insert_by-All P x [] px h = (px, tt)
  insert_by-All P x (y ∷ ys) px h = elim (Bool-cases (text_le (key x) (key y))) [
    | inl e ↦ rw (e, insert_by) (px, h)
    | inr e ↦ rw (e, insert_by) (h.0, insert_by-All P x ys px h.1)
  ]

  All-le_trans :
      (x y : A) (ys : List A)
      → text_le (key x) (key y) ≡ true
      → All (λ z. text_le (key y) (key z) ≡ true) ys
      → All (λ z. text_le (key x) (key z) ≡ true) ys
  All-le_trans x y [] e h = tt
  All-le_trans x y (z ∷ zs) e h =
      (text_le_trans (key x) (key y) (key z) e h.0, All-le_trans x y zs e h.1)

  le_of_not : (x y : A) → text_le (key x) (key y) ≡ false → text_le (key y) (key x) ≡ true
  le_of_not x y e = elim (text_le_total (key x) (key y)) [ inl h ↦ cc | inr h ↦ h ]

  insert_by-IsSortedBy : (x : A) (ys : List A) → IsSortedBy ys → IsSortedBy (insert_by x ys)
  unfolding insert_by
  insert_by-IsSortedBy x [] h = (tt, tt)
  insert_by-IsSortedBy x (y ∷ ys) h = elim (Bool-cases (text_le (key x) (key y))) [
    | inl e ↦ rw (e, insert_by) ((e, All-le_trans x y ys e h.0), h)
    | inr e ↦
        rw (e, insert_by)
          (
            insert_by-All (λ z. text_le (key y) (key z) ≡ true) x ys (le_of_not x y e) h.0,
            insert_by-IsSortedBy x ys h.1,
          )
  ]

  pub sort_by-IsSortedBy : (xs : List A) → IsSortedBy (sort_by xs)
  unfolding sort_by
  sort_by-IsSortedBy [] = tt
  sort_by-IsSortedBy (x ∷ xs) = insert_by-IsSortedBy x _ (sort_by-IsSortedBy xs)

-- `Vec::dedup` behind an element that was kept.
unfoldable pub dedup_after : Text → List Text → List Text
dedup_after x [] = []
dedup_after x (y ∷ ys) =
    let same = dedup_after x ys in
    let other = dedup_after y ys in if text_eq x y then same else y ∷ other

unfoldable pub dedup : List Text → List Text
unfolding dedup_after
dedup [] = []
dedup (x ∷ xs) = x ∷ dedup_after x xs
