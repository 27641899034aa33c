-- ===== src/WebDav/Delivery.antt =====
-- The consumers of src/caldav/streaming.rs and src/carddav/streaming.rs: what becomes of a sink that
-- gets several items.
use mathlib.Core.List.{append-nil, append_assoc}
use fast_dav_rs.Base.{◌≡◌, refl, ◌∙◌, sym, ap, List, [], ◌∷◌, ◌++◌, inl, inr}
use fast_dav_rs.Base.Result.{Result, ok, ◌>>=◌, Result-cases}

module _ {C Item : Type 0} (consume : C → Item → Result C) where
  -- The sink gets the items one after the other, up to its first error.
  abbrev pub deliver : C → List Item → Result C
  deliver sink [] = ok sink
  deliver sink (item ∷ items) = consume sink item >>= λ next. deliver next items

  pub deliver-append :
      (c : C) (items more : List Item)
      → deliver c (items ++ more) ≡ (deliver c items >>= λ c'. deliver c' more)
  deliver-append c [] more = refl
  deliver-append c (item ∷ items) more = elim (Result-cases (consume c item)) [
    | inl (e, r) ↦ rw r refl
    | inr (c', r) ↦ rw r (deliver-append c' items more)
  ]

-- A vector keeps the items that it gets.
pub deliver-push :
    {Item : Type 0} (known items : List Item)
    → deliver (λ (l : List Item) item. ok (l ++ item ∷ [])) known items ≡ ok (known ++ items)
deliver-push known [] = ap ok (sym (append-nil known))
deliver-push known (item ∷ items) =
    deliver-push (known ++ item ∷ []) items ∙ ap ok (append_assoc known (item ∷ []) items)
