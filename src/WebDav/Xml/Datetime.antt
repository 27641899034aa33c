-- ===== src/WebDav/Xml/Datetime.antt =====
-- What `validate_utc_datetime` of src/webdav/xml.rs accepts.
use fast_dav_rs.Base.{
  ℕ, ◌≡◌, ◌<◌, sym, ◌∙◌, ◌↔◌, inl, inr, true, [], ◌∷◌, ◌++◌, arith, Bool-cases, All, All-append, ap,
  ==_iff, length, all, take, drop, length-append,
}
use fast_dav_rs.Base.Slices.{
  byte_at, &&-eq-true, all-All, split_at, drop-drop, length-drop, length-take, empty_of_length,
  take-append_exact, drop-append_exact,
}
use fast_dav_rs.Base.Result.{ok}
use fast_dav_rs.Base.Text.{Text, Bytes, is_ascii_digit}
use fast_dav_rs.Base.Utf8.{as_bytes, as_bytes_ascii, ascii-as_bytes}
use fast_dav_rs.WebDav.Xml.{escape_xml, validate_utc_datetime, structurally_valid}
use fast_dav_rs.WebDav.Xml.Validate.{IsComponentChar, escape_xml-component_chars}

-- Eight digits, `T`, six digits, `Z`.
pub record IsUtcDatetime (value : Text) : Type 0 where
  pub date : Text
  pub time : Text
  pub shape : value ≡ date ++ (b'T' ∷ (time ++ (b'Z' ∷ [])))
  pub date_length : length date ≡ 8
  pub time_length : length time ≡ 6
  pub date_digits : All (λ c. is_ascii_digit c ≡ true) date
  pub time_digits : All (λ c. is_ascii_digit c ≡ true) time

ascii_digit : (c : ℕ) → is_ascii_digit c ≡ true → c < 0x80
ascii_digit c h = ground arith

-- The five tests of the validator.
record Parts (bytes : Bytes) : Type 0 where
  size : length bytes ≡ 16
  date : all is_ascii_digit (take 8 bytes) ≡ true
  separator : byte_at bytes 8 ≡ b'T'
  time : all is_ascii_digit (take 6 (drop 9 bytes)) ≡ true
  suffix : byte_at bytes 15 ≡ b'Z'

structurally_valid-Parts : (bytes : Bytes) → structurally_valid bytes ≡ true → Parts bytes
unfolding structurally_valid
structurally_valid-Parts bytes v =
    let (abcd, e) = &&-eq-true _ _ v in
    let (abc, d) = &&-eq-true _ _ abcd in
    let (ab, c) = &&-eq-true _ _ abc in
    let (a, b) = &&-eq-true _ _ ab in
    record {
      size = (==_iff _ _).0 a;
      date = b;
      separator = (==_iff _ _).0 c;
      time = d;
      suffix = (==_iff _ _).0 e;
    }

time_part : (bytes : Bytes) → Parts bytes → drop 9 bytes ≡ take 6 (drop 9 bytes) ++ b'Z' ∷ []
time_part bytes v =
    let rest : Bytes = drop 9 bytes in
    let last : byte_at rest 6 ≡ byte_at bytes 15 = ap (λ bs. byte_at bs 0) (drop-drop 6 9 bytes) in
    let none_left : drop 7 rest ≡ [] =
      empty_of_length (drop 7 rest) (omega (arith, length-drop 7 rest, length-drop 9 bytes)) in
    split_at 6 rest (omega (arith, length-drop 9 bytes))
    ∙ ap (λ bs. take 6 rest ++ bs) (cc (last, none_left, v.suffix))

Parts-IsUtcDatetime : (bytes : Bytes) → Parts bytes → IsUtcDatetime bytes
Parts-IsUtcDatetime bytes v = record {
  date = take 8 bytes;
  time = take 6 (drop 9 bytes);
  shape =
      split_at 8 bytes (omega arith)
      ∙ ap (λ bs. take 8 bytes ++ bs) (cc (v.separator, time_part bytes v));
  date_length = length-take 8 bytes (omega arith);
  time_length = length-take 6 (drop 9 bytes) (omega (arith, length-drop 9 bytes));
  date_digits = (all-All is_ascii_digit _).0 v.date;
  time_digits = (all-All is_ascii_digit _).0 v.time;
}

digits_ascii : (s : Text) → All (λ c. is_ascii_digit c ≡ true) s → All (λ c. c < 0x80) s
digits_ascii [] h = tt
digits_ascii (c ∷ cs) h = (ascii_digit c h.0, digits_ascii cs h.1)

IsUtcDatetime-ascii : (value : Text) → IsUtcDatetime value → All (λ c. c < 0x80) value
IsUtcDatetime-ascii value v = rw v.shape (
    All-append (λ c. c < 0x80) v.date _ (digits_ascii v.date v.date_digits)
      (
        omega arith,
        All-append (λ c. c < 0x80) v.time _ (digits_ascii v.time v.time_digits) (omega arith),
      ))

IsUtcDatetime-Parts : (value : Text) → IsUtcDatetime value → Parts value
IsUtcDatetime-Parts value v =
    let rest : Text = v.time ++ b'Z' ∷ [] in
    let at8 : drop 8 value ≡ b'T' ∷ rest =
      ap (drop 8) v.shape ∙ drop-append_exact v.date v.date_length (b'T' ∷ rest) in
    let at9 : drop 9 value ≡ rest = sym (drop-drop 1 8 value) ∙ ap (drop 1) at8 in
    let at15 : drop 15 value ≡ b'Z' ∷ [] =
      sym (drop-drop 6 9 value)
      ∙ ap (drop 6) at9
      ∙ drop-append_exact v.time v.time_length (b'Z' ∷ []) in
    record {
      size =
          ap length v.shape
          ∙ omega (
            arith,
            length-append v.date (b'T' ∷ rest),
            length-append v.time (b'Z' ∷ []),
            v.date_length,
            v.time_length,
          );
      date =
          ap (λ s. all is_ascii_digit (take 8 s)) v.shape
          ∙ ap (all is_ascii_digit) (take-append_exact v.date v.date_length (b'T' ∷ rest))
          ∙ (all-All is_ascii_digit v.date).1 v.date_digits;
      separator = ap (λ s. byte_at s 0) at8;
      time =
          ap (λ s. all is_ascii_digit (take 6 s)) at9
          ∙ ap (all is_ascii_digit) (take-append_exact v.time v.time_length (b'Z' ∷ []))
          ∙ (all-All is_ascii_digit v.time).1 v.time_digits;
      suffix = ap (λ s. byte_at s 0) at15;
    }

Parts-structurally_valid : (bytes : Bytes) → Parts bytes → structurally_valid bytes ≡ true
unfolding structurally_valid
Parts-structurally_valid bytes v = rw (v.size, v.date, v.separator, v.time, v.suffix)

-- A date-time is accepted exactly when it is eight ASCII digits, `T`, six ASCII digits and `Z`.
pub validate_utc_datetime_iff :
    (value : Text) → (validate_utc_datetime value ≡ ok tt) ↔ IsUtcDatetime value
unfolding validate_utc_datetime
validate_utc_datetime_iff value = (forth, back)
  where
    accepted : validate_utc_datetime value ≡ ok tt → structurally_valid (as_bytes value) ≡ true
    accepted h = elim (Bool-cases (structurally_valid (as_bytes value))) [
      | inl e ↦ e
      | inr e ↦ absurd (cc (rw (e, validate_utc_datetime) at h))
    ]

    forth : validate_utc_datetime value ≡ ok tt → IsUtcDatetime value
    forth h =
        let v : IsUtcDatetime (as_bytes value) =
          Parts-IsUtcDatetime _ (structurally_valid-Parts _ (accepted h)) in
        rw (as_bytes_ascii value (IsUtcDatetime-ascii _ v)) at v

    back : IsUtcDatetime value → validate_utc_datetime value ≡ ok tt
    back v =
        let e : as_bytes value ≡ value = ascii-as_bytes value (IsUtcDatetime-ascii value v) in
        let t : structurally_valid value ≡ true =
          Parts-structurally_valid value (IsUtcDatetime-Parts value v) in
        rw e (rw t)

digits_component_chars : (s : Text) → All (λ c. is_ascii_digit c ≡ true) s → All IsComponentChar s
digits_component_chars [] h = tt
digits_component_chars (c ∷ cs) h = (ground arith, digits_component_chars cs h.1)

-- An accepted date-time stands in the request as it is: escaping does not change it.
pub escape_xml-IsUtcDatetime : (value : Text) → IsUtcDatetime value → escape_xml value ≡ value
escape_xml-IsUtcDatetime value v = escape_xml-component_chars value (rw v.shape parts)
  where
    time : All IsComponentChar (v.time ++ b'Z' ∷ [])
    time =
        All-append IsComponentChar v.time _ (digits_component_chars v.time v.time_digits)
          (ground arith, tt)

    parts : All IsComponentChar (v.date ++ (b'T' ∷ (v.time ++ b'Z' ∷ [])))
    parts =
        All-append IsComponentChar v.date _ (digits_component_chars v.date v.date_digits)
          (ground arith, time)
