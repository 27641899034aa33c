-- ===== src/Base/Text/Number.antt =====
-- `str::parse` for unsigned integers, and their decimal print.
use fast_dav_rs.Base.{
  ℕ, zero, suc, ◌+◌, ◌-◌, ◌*◌, ◌/◌, ◌%◌, ◌≤◌, ◌<◌, ◌≡◌, refl, inl, inr, [], ◌∷◌, ◌++◌, Option, none,
  some, ltb, leb, ◌==◌, if◌then◌else◌, Bool-cases, arith, ◌>>=?◌,
}
use fast_dav_rs.Base.Text.{Text, is_ascii_digit}

-- `acc` is the value of the digits read; a value above `max` overflows.
unfoldable pub parse_digits : ℕ → ℕ → Text → Option ℕ
parse_digits max acc [] = some acc
parse_digits max acc (c ∷ cs) =
    let value = acc * 10 + (c - 48) in
    let rest = parse_digits max value cs in
    if is_ascii_digit c then (if leb value max then rest else none) else none

abbrev unsigned : ℕ → Text → Option ℕ
unsigned max [] = none
unsigned max (c ∷ cs) = parse_digits max 0 (c ∷ cs)

-- A leading `+` is accepted, alone it is not.
unfoldable pub parse_unsigned : ℕ → Text → Option ℕ
unfolding parse_digits
parse_unsigned max [] = none
parse_unsigned max (c ∷ cs) = if c == b'+' then unsigned max cs else unsigned max (c ∷ cs)

abbrev pub u16_max : ℕ
u16_max = 65535

unfoldable pub parse_u16 : Text → Option ℕ
unfolding parse_unsigned
parse_u16 = parse_unsigned u16_max

-- The fuel bounds the number of digits.
decimal_from : ℕ → ℕ → Text
decimal_from zero n = []
decimal_from (suc f) n =
    let front = decimal_from f (n / 10) in
    if ltb n 10 then (48 + n) ∷ [] else front ++ ((48 + n % 10) ∷ [])

-- `to_string`
unfoldable pub decimal : ℕ → Text
unfolding decimal_from
decimal n = decimal_from (suc n) n

parse_digits-append :
    (max acc : ℕ) (s t : Text)
    → parse_digits max acc (s ++ t) ≡ (parse_digits max acc s >>=? λ v. parse_digits max v t)
unfolding parse_digits
parse_digits-append max acc [] t = refl
parse_digits-append max acc (c ∷ cs) t =
    ground (arith, parse_digits-append max (acc * 10 + (c - 48)) cs t)

parse_digits-decimal_from :
    (f max n : ℕ) → n < f → n ≤ max → parse_digits max 0 (decimal_from f n) ≡ some n
unfolding decimal_from
parse_digits-decimal_from zero max n h k = elim h [ ]
parse_digits-decimal_from (suc f) max n h k = elim (Bool-cases (ltb n 10)) [
  | inl small ↦ rw small (unfold parse_digits in ground arith)
  | inr large ↦
      rw (large, parse_digits-append)
        (rw (parse_digits-decimal_from f max (n / 10) (ground arith) (ground arith))
          (unfold parse_digits in ground arith))
]

-- Every number that fits is read back from its print.
pub parse_digits-decimal : (max n : ℕ) → n ≤ max → parse_digits max 0 (decimal n) ≡ some n
unfolding decimal
parse_digits-decimal max n h = parse_digits-decimal_from (suc n) max n (omega arith) h
