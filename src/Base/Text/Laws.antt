-- ===== src/Base/Text/Laws.antt =====
-- Laws of the text operations.
use fast_dav_rs.Base.{◌≡◌, refl, ◌↔◌, ◌⊎◌, inl, inr, true, [], ◌∷◌, arith}
use fast_dav_rs.Base.Text.{Text, text_eq, to_ascii_lowercase, eq_ignore_ascii_case, text_le}

pub text_eq_iff : (a b : Text) → (text_eq a b ≡ true) ↔ (a ≡ b)
unfolding text_eq
text_eq_iff (x ∷ a) (y ∷ b) = ground (arith, text_eq_iff a b)
text_eq_iff _ _ = ground arith

pub text_eq_refl : (a : Text) → text_eq a a ≡ true
text_eq_refl a = (text_eq_iff a a).1 refl

pub eq_ignore_ascii_case_iff :
    (a b : Text) → (eq_ignore_ascii_case a b ≡ true) ↔ (to_ascii_lowercase a ≡ to_ascii_lowercase b)
unfolding eq_ignore_ascii_case
eq_ignore_ascii_case_iff a b = text_eq_iff (to_ascii_lowercase a) (to_ascii_lowercase b)

pub text_le_total : (a b : Text) → (text_le a b ≡ true) ⊎ (text_le b a ≡ true)
unfolding text_le
text_le_total (x ∷ a) (y ∷ b) = elim (text_le_total a b) [
  | inl h ↦ ground arith
  | inr h ↦ ground arith
]
text_le_total [] b = inl refl
text_le_total a [] = inr refl

pub text_le_antisym : (a b : Text) → text_le a b ≡ true → text_le b a ≡ true → a ≡ b
unfolding text_le
text_le_antisym (x ∷ a) (y ∷ b) h k = ground (arith, text_le_antisym a b)
text_le_antisym _ _ h k = ground arith

pub text_le_trans : (a b c : Text) → text_le a b ≡ true → text_le b c ≡ true → text_le a c ≡ true
unfolding text_le
text_le_trans (x ∷ a) (y ∷ b) (z ∷ c) h k = ground (arith, text_le_trans a b c)
text_le_trans _ _ _ h k = ground arith
