-- ===== src/Common/Compression/Preference/Best.antt =====
-- Which encoding the negotiation of src/common/compression.rs chooses.
use fast_dav_rs.Base.{
  ◌≡◌, refl, true, false, List, [], ◌∷◌, Option, none, some, All, All-imp, if◌then◌else◌, inl, inr,
  Bool-cases, Option-cases,
}
use fast_dav_rs.Common.Compression.Codec.{ContentEncoding, identity, br, gzip, zstd}
use fast_dav_rs.Common.Compression.Weights.{F32Api}
use fast_dav_rs.Common.Compression.Preference.{
  Preferences, effective_identity, effective, consider_weight, consider, best_candidate, candidates,
  choose,
}
use fast_dav_rs.Common.Compression.{is_identity}

module _ (floats : F32Api) where
  open floats use {F32, le_zero, gt_zero, exceeds, exceeds_asym, exceeds_trans}

  module _ (s : Preferences floats) where
    -- The candidate has no weight, or one of at most zero.
    abbrev pub IsRefused : ContentEncoding → Type 0
    IsRefused c = (q : F32) → effective floats s c ≡ some q → le_zero q ≡ true

    -- The candidate's weight, unless it is of at most zero, does not exceed the bound by more than
    -- EPSILON.
    abbrev pub IsBeaten : F32 → ContentEncoding → Type 0
    IsBeaten bound c =
        (q : F32) → effective floats s c ≡ some q → le_zero q ≡ false → exceeds q bound ≡ false

    -- What is known of the best candidate after the candidates in the list.
    abbrev pub IsBest : List ContentEncoding → Option (ContentEncoding × F32) → Type 0
    IsBest seen none = All IsRefused seen
    IsBest seen (some (best, best_q)) =
        (is_identity best ≡ false)
        × (effective floats s best ≡ some best_q)
        × (le_zero best_q ≡ false)
        × All (IsBeaten best_q) seen

    exceeds_irrefl : (q : F32) → exceeds q q ≡ false
    exceeds_irrefl q = elim (Bool-cases (exceeds q q)) [ inl e ↦ exceeds_asym q q e | inr e ↦ e ]

    -- A bound that exceeds another one beats what that one beats.
    IsBeaten-mono :
        (old bound : F32) (c : ContentEncoding)
        → exceeds bound old ≡ true
        → IsBeaten old c
        → IsBeaten bound c
    IsBeaten-mono old bound c more h q e positive = elim (Bool-cases (exceeds q bound)) [
      | inl better ↦ absurd (cc (exceeds_trans q bound old better more, h q e positive))
      | inr worse ↦ worse
    ]

    same_weight :
        (c : ContentEncoding) (q r : F32)
        → effective floats s c ≡ some q
        → effective floats s c ≡ some r
        → q ≡ r
    same_weight c q r e k = cc

    own_IsBeaten : (c : ContentEncoding) (q : F32) → effective floats s c ≡ some q → IsBeaten q c
    own_IsBeaten c q e r k p = rw (← same_weight c q r e k) (exceeds_irrefl q)

    module _ (seen : List ContentEncoding) (c : ContentEncoding)
        (proper : is_identity c ≡ false) where
      unweighted :
          (best : Option (ContentEncoding × F32))
          → effective floats s c ≡ none
          → IsBest seen best
          → IsBest (c ∷ seen) best
      unweighted none e h = ((λ q k. absurd (cc (e, k))), h)
      unweighted (some (best, best_q)) e (i, own, positive, h) =
          (i, own, positive, ((λ q k p. absurd (cc (e, k))), h))

      weighted :
          (best : Option (ContentEncoding × F32)) (q : F32)
          → effective floats s c ≡ some q
          → IsBest seen best
          → IsBest (c ∷ seen) (consider_weight floats best c q)
      weighted none q e h = elim (Bool-cases (le_zero q)) [
        | inl refused ↦ rw refused ((λ r k. cc (e, k, refused)), h)
        | inr positive ↦ rw positive (
          proper,
          e,
          positive,
          (own_IsBeaten c q e, All-imp (λ d r x k p. absurd (cc (r x k, p))) seen h),
        )
      ]
      weighted (some (best, best_q)) q e (i, own, positive, h) = elim (Bool-cases (le_zero q)) [
        | inl refused ↦
            rw refused (i, own, positive, ((λ r k p. absurd (cc (e, k, refused, p))), h))
        | inr q_positive ↦ rw q_positive (elim (Bool-cases (exceeds q best_q)) [
          | inl better ↦ rw better (
            proper,
            e,
            q_positive,
            (own_IsBeaten c q e, All-imp (λ d. IsBeaten-mono best_q q d better) seen h),
          )
          | inr worse ↦
              rw worse (i, own, positive, ((λ r k p. rw (← same_weight c q r e k) worse), h))
        ])
      ]

      consider-IsBest :
          (best : Option (ContentEncoding × F32))
          → IsBest seen best
          → IsBest (c ∷ seen) (consider floats s best c)
      unfolding consider
      consider-IsBest best h = elim (Option-cases (effective floats s c)) [
        | inl e ↦ rw (e, consider) (unweighted best e h)
        | inr (q, e) ↦ rw (e, consider) (weighted best q e h)
      ]

    three_candidates :
        IsBest (gzip ∷ zstd ∷ br ∷ []) (best_candidate floats s none (candidates floats))
    unfolding best_candidate
    three_candidates =
        consider-IsBest (zstd ∷ br ∷ []) gzip refl _
          (consider-IsBest (br ∷ []) zstd refl _ (consider-IsBest [] br refl none tt))

    -- What a choice has to satisfy, by what is chosen.
    abbrev pub IsChoice : Option ContentEncoding → Type 0
    IsChoice none =
        All IsRefused (gzip ∷ zstd ∷ br ∷ []) × (gt_zero (effective_identity floats s) ≡ false)
    IsChoice (some identity) =
        All IsRefused (gzip ∷ zstd ∷ br ∷ []) × (gt_zero (effective_identity floats s) ≡ true)
    IsChoice (some e) =
        (q : F32) × (effective floats s e ≡ some q)
        × (le_zero q ≡ false)
        × All (IsBeaten q) (gzip ∷ zstd ∷ br ∷ [])

    -- A chosen encoding other than identity has a weight that does not compare as at most zero, and
    -- no candidate with such a weight exceeds it by more than EPSILON. If identity is chosen, every
    -- candidate is without weight or has one of at most zero, and the weight of identity is positive;
    -- if nothing is chosen, the same holds of the candidates, and the weight of identity is not
    -- positive.
    pub choose-IsChoice : IsChoice (choose floats s)
    unfolding choose
    choose-IsChoice = finish (best_candidate floats s none (candidates floats)) three_candidates
      where
        chosen : Option (ContentEncoding × F32) → Option ContentEncoding
        chosen (some (encoding, q)) = some encoding
        chosen none = if gt_zero (effective_identity floats s) then some identity else none

        finish :
            (best : Option (ContentEncoding × F32))
            → IsBest (gzip ∷ zstd ∷ br ∷ []) best
            → IsChoice (chosen best)
        finish none h = elim (Bool-cases (gt_zero (effective_identity floats s))) [
          | inl e ↦ rw e (h, e)
          | inr e ↦ rw e (h, e)
        ]
        finish (some (identity, q)) (i, own, positive, h) = absurd (cc i)
        finish (some (e, q)) (i, own, positive, h) = (q, own, positive, h)
