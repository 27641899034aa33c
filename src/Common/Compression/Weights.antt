-- ===== src/Common/Compression/Weights.antt =====
-- `f32` as the negotiation of src/common/compression.rs uses it: an interface, since there are no
-- floats. The laws are those of the order on floats, which hold with NaN too.
use fast_dav_rs.Base.{ℕ, ◌≡◌, Bool, true, false, Option, arith, if◌then◌else◌, ltb, leb, ◌==◌}
use fast_dav_rs.Base.Text.{Text}
use fast_dav_rs.Base.Text.Number.{parse_u16}

pub record F32Api : Type 1 where
  pub F32 : Type 0
  -- `1.0`
  pub one : F32
  -- `str::parse`
  pub parse : Text → Option F32
  -- `clamp(0.0, 1.0)`
  pub clamp : F32 → F32
  -- `q <= 0.0` and `q > 0.0`
  pub le_zero : F32 → Bool
  pub gt_zero : F32 → Bool
  -- `q > best + f32::EPSILON`
  pub exceeds : F32 → F32 → Bool
  pub exceeds_asym : (a b : F32) → exceeds a b ≡ true → exceeds b a ≡ false
  pub exceeds_trans : (a b c : F32) → exceeds a b ≡ true → exceeds b c ≡ true → exceeds a c ≡ true

-- Whole numbers meet the interface.
pub lt_asym : (a b : ℕ) → ltb b a ≡ true → ltb a b ≡ false
lt_asym a b h = ground arith

pub lt_trans : (a b c : ℕ) → ltb b a ≡ true → ltb c b ≡ true → ltb c a ≡ true
lt_trans a b c h k = ground arith

abbrev pub whole_weights : F32Api
whole_weights = record {
  F32 = ℕ;
  one = 1;
  parse = parse_u16;
  clamp = λ n. if leb n 1 then n else 1;
  le_zero = λ n. n == 0;
  gt_zero = λ n. ltb 0 n;
  exceeds = λ a b. ltb b a;
  exceeds_asym = lt_asym;
  exceeds_trans = lt_trans;
}
