-- ===== src/Base/Slices.antt =====
-- Slices of lists: `xs[..n]` and `xs[n..]`, and what their parts are.
use native.Mathlib.Nat.{zero-add}
use mathlib.Core.List.{List, [], ◌∷◌, ◌++◌}
use mathlib.Core.Path.{◌≡◌, refl, sym, ap, ◌∙◌}
use mathlib.Core.Bool.{Bool, true, false, ◌&&◌}
use mathlib.Core.Logic.{◌↔◌, inl, inr}
use native.Mathlib.Omega.{arith}
use Prim.Native.Nat.{ℕ, zero, suc, ◌+◌, ◌-◌, ◌≤◌, ◌<◌}
use fast_dav_rs.Base.Tests.{Bool-cases}
use fast_dav_rs.Base.Lists.{All, length, all, take, drop}
use fast_dav_rs.Base.Text.{Bytes}

-- `bytes[i]`, which callers read only behind a test of the length.
abbrev pub byte_at : Bytes → ℕ → ℕ
byte_at bytes i = elim (drop i bytes) [ [] ↦ 0 | b ∷ rest ↦ b ]

pub &&-eq-true : (a b : Bool) → (a && b) ≡ true → (a ≡ true) × (b ≡ true)
&&-eq-true true b h = (refl, h)
&&-eq-true false b h = absurd (cc h)

pub all-All {ℓ} :
    {A : Type ℓ} (p : A → Bool) (xs : List A) → (all p xs ≡ true) ↔ All (λ x. p x ≡ true) xs
all-All p [] = ((λ h. tt), (λ h. refl))
all-All p (x ∷ xs) = elim (Bool-cases (p x)) [
  | inl e ↦ rw e ((λ h. (refl, (all-All p xs).0 h)), (λ h. (all-All p xs).1 h.1))
  | inr n ↦ rw n ((λ h. absurd (cc h)), (λ h. absurd (cc h.0)))
]

-- A list splits at any position that it has.
pub split_at :
    (n : ℕ) (bs : Bytes) → n < length bs → bs ≡ take n bs ++ (byte_at bs n ∷ drop (suc n) bs)
split_at n [] h = absurd (omega arith)
split_at zero (b ∷ bs) h = refl
split_at (suc n) (b ∷ bs) h = ap (◌∷◌ b) (split_at n bs (omega arith))

drop-nil : (n : ℕ) → drop {A = ℕ} n [] ≡ []
drop-nil zero = refl
drop-nil (suc n) = refl

pub drop-drop : (m n : ℕ) (bs : Bytes) → drop m (drop n bs) ≡ drop (n + m) bs
drop-drop m zero bs = rw zero-add
drop-drop m (suc n) [] = drop-nil m ∙ sym (drop-nil (suc n + m))
drop-drop m (suc n) (b ∷ bs) =
    let e : suc n + m ≡ suc (n + m) = omega arith in rw e (drop-drop m n bs)

pub length-drop : (n : ℕ) (bs : Bytes) → length (drop n bs) ≡ length bs - n
length-drop zero bs = omega arith
length-drop (suc n) [] = omega arith
length-drop (suc n) (b ∷ bs) = omega (arith, length-drop n bs)

pub length-take : (n : ℕ) (bs : Bytes) → n ≤ length bs → length (take n bs) ≡ n
length-take zero bs h = refl
length-take (suc n) [] h = absurd (omega arith)
length-take (suc n) (b ∷ bs) h = omega (arith, length-take n bs)

pub empty_of_length : (bs : Bytes) → length bs ≡ 0 → bs ≡ []
empty_of_length [] h = refl
empty_of_length (b ∷ bs) h = absurd (omega arith)

module _ (xs : Bytes) {n : ℕ} (size : length xs ≡ n) where
  pub take-append_exact : (ys : Bytes) → take n (xs ++ ys) ≡ xs
  take-append_exact ys = go xs n size
    where
      go : (xs : Bytes) (n : ℕ) → length xs ≡ n → take n (xs ++ ys) ≡ xs
      go [] zero h = refl
      go [] (suc n) h = absurd (omega (arith, h))
      go (x ∷ xs) zero h = absurd (omega (arith, h))
      go (x ∷ xs) (suc n) h = ap (◌∷◌ x) (go xs n (omega (arith, h)))

  pub drop-append_exact : (ys : Bytes) → drop n (xs ++ ys) ≡ ys
  drop-append_exact ys = go xs n size
    where
      go : (xs : Bytes) (n : ℕ) → length xs ≡ n → drop n (xs ++ ys) ≡ ys
      go [] zero h = refl
      go [] (suc n) h = absurd (omega (arith, h))
      go (x ∷ xs) zero h = absurd (omega (arith, h))
      go (x ∷ xs) (suc n) h = go xs n (omega (arith, h))
