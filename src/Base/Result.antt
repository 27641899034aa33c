-- ===== src/Base/Result.antt =====
-- `anyhow::Result`. The message of an error is its constructor; the values that a message quotes
-- are kept where the code formats them.
use Prim.Native.Nat.{ℕ}
use mathlib.Core.Path.{◌≡◌, refl}
use mathlib.Core.Logic.{◌⊎◌, inl, inr}
use mathlib.Core.Option.{Option, none, some}
use fast_dav_rs.Base.Tests.{◌>>=?◌}

pub data Error : Type 0 where
  empty_component_name invalid_character invalid_datetime : Error
  mismatched_tag unopened_tag unclosed_element : Error
  reader_error attribute_error decode_error idle_timeout : Error
  invalid_uri invalid_header invalid_method invalid_request : Error
  timed_out transport_failed decompression_failed empty_etag consumer_failed : Error
  request_failed : ℕ → Error

pub data Result {ℓ} (Value : Type ℓ) : Type ℓ where
  err : Error → Result Value
  ok : Value → Result Value

-- Exactly one of the two, with what it holds.
pub Result-cases {ℓ} :
    {Value : Type ℓ} (outcome : Result Value)
    → ((why : Error) × (outcome ≡ err why)) ⊎ ((v : Value) × (outcome ≡ ok v))
Result-cases (ok v) = inr (v, refl)
Result-cases (err why) = inl (why, refl)

-- `Option::ok_or`
abbrev pub ok_or {ℓ} : {Value : Type ℓ} → Option Value → Error → Result Value
ok_or (some v) why = ok v
ok_or none why = err why

infixl 5 ◌>>=◌ ◌>>◌
-- What `?` does: an error ends the chain.
abbrev pub ◌>>=◌ {ℓ κ} :
    {Value : Type ℓ} {Next : Type κ} → Result Value → (Value → Result Next) → Result Next
err why >>= next = err why
ok v >>= next = next v

-- A chain that succeeds has a first part that does.
pub bind-eq-ok {ℓ κ} :
    {Value : Type ℓ} {Next : Type κ} (first : Result Value) (next : Value → Result Next)
    {final : Next}
    → (first >>= next) ≡ ok final
    → (v : Value) × (first ≡ ok v) × (next v ≡ ok final)
bind-eq-ok (err why) next succeeds = cc
bind-eq-ok (ok v) next succeeds = (v, refl, succeeds)

abbrev pub ◌>>◌ {ℓ} : {Next : Type ℓ} → Result (Unit {0}) → Result Next → Result Next
check >> rest = check >>= λ passed. rest

-- `Result::ok`
abbrev pub success {ℓ} : {Value : Type ℓ} → Result Value → Option Value
success (err why) = none
success (ok v) = some v

pub success-bind {ℓ κ} :
    {Value : Type ℓ} {Next : Type κ} (first : Result Value) (next : Value → Result Next)
    → success (first >>= next) ≡ (success first >>=? λ v. success (next v))
success-bind (err why) next = refl
success-bind (ok v) next = refl
