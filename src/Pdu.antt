-- ===== src/Pdu.antt =====
-- pdu.c: the digits and fields of SMS PDUs, building a SUBMIT and parsing a DELIVER and a status
-- report. A PDU is a text of hexadecimal digits; a parser takes it and returns what is left. Where
-- `pdu_parse` fails, the position that it leaves in `*pdu`, which callers only log, is not modelled.
pub mod Digits
pub mod Validity
pub mod Fields
pub mod Deliver
pub mod Submit
mod Tests
use Prim.Native.Nat.{bit_and}
use chan_svistok.Base.{
  ℕ, zero, suc, ◌+◌, ◌-◌, ◌*◌, ◌/◌, ◌%◌, ◌^◌, List, [], ◌∷◌, ◌++◌, Bool, true, false, not, ◌&&◌,
  ◌||◌, Option, none, some, ltb, leb, ◌==◌, if◌then◌else◌, length, take, drop, ℤ, pos, negsuc,
}
use chan_svistok.CharConv.{
  Coded, text, error, parse_hexdigit, hex2, StrEncoding, bit7_hex, bit8_hex, ucs2_hex, bit7,
  unknown, encode, Iconv, str_recode, get_encoding,
}

-- `pdu_digit2code`: 0 if the digit is invalid.
unfoldable pub pdu_digit2code : ℕ → ℕ
pdu_digit2code d =
    if leb b'0' d && leb d b'9'
    then d
    else (if d == b'*'
        then b'A'
        else (if d == b'#'
            then b'B'
            else (if d == b'a' || d == b'A'
                then b'C'
                else (if d == b'b' || d == b'B'
                    then b'D'
                    else (if d == b'c' || d == b'C' then b'E' else 0)))))

-- `pdu_code2digit`: 0 for the filler, -1 if the code is invalid.
unfoldable pub pdu_code2digit : ℕ → ℤ
pdu_code2digit c =
    if leb b'0' c && leb c b'9'
    then pos c
    else (if c == b'a' || c == b'A'
        then pos b'*'
        else (if c == b'b' || c == b'B'
            then pos b'#'
            else (if c == b'c' || c == b'C'
                then pos b'A'
                else (if c == b'd' || c == b'D'
                    then pos b'B'
                    else (if c == b'e' || c == b'E'
                        then pos b'C'
                        else (if c == b'F' then pos 0 else negsuc 0))))))

-- `pdu_relative_validity`. The subtraction is of `unsigned`, so 0 minutes give -1.
unfoldable pub pdu_relative_validity : ℕ → ℤ
pdu_relative_validity minutes =
    if leb minutes 720
    then (if minutes == 0 then negsuc 0 else pos ((minutes + 4) / 5 - 1))
    else (if leb minutes 1440
        then pos ((minutes + 29) / 30 + 119)
        else (if leb minutes 43200
            then pos ((minutes + 1439) / 1440 + 166)
            else (if leb minutes 635040 then pos ((minutes + 10079) / 10080 + 192) else pos 0xFF)))

-- `pdu_parse_byte`: the value and what is left. After a first digit that is followed by none, the
-- result is that digit.
unfoldable pub second_digit : ℕ → ℤ → List ℕ → ℕ → ℤ × List ℕ
second_digit d (pos e) r b = (pos (d * 16 + e), r)
second_digit d (negsuc e) r b = (pos d, b ∷ r)

unfoldable pub first_digit : ℤ → ℕ → ℕ → List ℕ → ℤ × List ℕ
unfolding second_digit
first_digit (pos d) a b r = second_digit d (parse_hexdigit b) r b
first_digit (negsuc e) a b r = (negsuc e, a ∷ (b ∷ r))

unfoldable pub pdu_parse_byte : List ℕ → ℤ × List ℕ
unfolding first_digit
pdu_parse_byte [] = (negsuc 0, [])
pdu_parse_byte (a ∷ []) = (negsuc 0, a ∷ [])
pdu_parse_byte (a ∷ (b ∷ r)) = first_digit (parse_hexdigit a) a b r

-- `pdu_store_number`: the digits in pairs, each swapped, an odd one after the filler.
unfoldable pub pdu_store_number : List ℕ → List ℕ
pdu_store_number [] = []
pdu_store_number (a ∷ []) = b'F' ∷ pdu_digit2code a ∷ []
pdu_store_number (a ∷ (b ∷ r)) = pdu_digit2code b ∷ pdu_digit2code a ∷ pdu_store_number r

-- `ROUND_UP2` and `LENGTH2OCTETS`.
abbrev pub round_up2 : ℕ → ℕ
round_up2 x = (x + 1) / 2 * 2

abbrev pub length2octets : ℕ → ℕ
length2octets x = (x + 1) / 2

abbrev pub or_nul : ℤ → ℕ
or_nul (pos d) = d
or_nul (negsuc e) = 0

-- The loop of `pdu_parse_number`, over the pairs of symbols that are left: what is written, and what
-- is left of the PDU. An invalid digit is written as NUL, as is the filler.
unfoldable pub parse_digits : ℕ → List ℕ → List ℕ × List ℕ
parse_digits zero r = ([], r)
parse_digits (suc n) [] = ([], [])
parse_digits (suc n) (a ∷ []) = ([], a ∷ [])
parse_digits (suc n) (a ∷ (b ∷ r)) =
    let (ds, rest) = parse_digits n r in
    (or_nul (pdu_code2digit b) ∷ or_nul (pdu_code2digit a) ∷ ds, rest)

-- What `pdu_parse_number` answers: the bytes of the PDU that it took or an error, the type of address,
-- all that it wrote to `number`, and what is left.
pub record Number : Type 0 where
  pub result : ℤ
  pub toa : ℤ
  pub written : List ℕ
  pub rest : List ℕ

abbrev pub toa_international : ℕ
toa_international = 0x91

unfoldable pub number_after_toa : ℕ → ℤ × List ℕ → ℕ → Number
number_after_toa taken (negsuc e, rest) digits = record {
  result = negsuc 21;
  toa = negsuc e;
  written = [];
  rest = rest;
}
number_after_toa taken (pos toa, rest) digits =
    if leb (round_up2 digits) (length rest)
    then (let (ds, rest') = parse_digits (round_up2 digits / 2) rest in
        record {
          result = pos (taken + round_up2 digits - length rest);
          toa = pos toa;
          written =
              (if toa == toa_international then b'+' ∷ [] else [])
              ++ (ds ++ (if digits % 2 == 0 then 0 ∷ [] else []));
          rest = rest';
        })
    else record { result = negsuc 21; toa = pos toa; written = []; rest = rest }

unfoldable pub pdu_parse_number : List ℕ → ℕ → ℕ → Number
pdu_parse_number pdu digits num_len =
    if ltb num_len (digits + 1)
    then record { result = negsuc 11; toa = negsuc 0; written = []; rest = pdu }
    else number_after_toa (length pdu) (pdu_parse_byte pdu) digits

-- `pdu_parse_sca`: the length of the field, and what is left.
unfoldable pub sca_after_len : ℤ × List ℕ → ℤ × List ℕ
sca_after_len (negsuc e, rest) = (negsuc 21, rest)
sca_after_len (pos n, rest) =
    if leb (n * 2) (length rest) then (pos (n * 2 + 2), drop (n * 2) rest) else (negsuc 21, rest)

unfoldable pub pdu_parse_sca : List ℕ → ℤ × List ℕ
unfolding sca_after_len
pdu_parse_sca pdu = sca_after_len (pdu_parse_byte pdu)

unfoldable pub pdu_parse_timestamp : List ℕ → ℤ × List ℕ
pdu_parse_timestamp pdu = if leb 14 (length pdu) then (pos 14, drop 14 pdu) else (negsuc 21, pdu)

-- `check_encoding`: `PDU_DCS_ALPABET_7BIT` or `PDU_DCS_ALPABET_UCS2`.
abbrev pub alphabet_ucs2 : ℕ
alphabet_ucs2 = 8

unfoldable pub check_encoding : List ℕ → ℕ
check_encoding msg = elim (get_encoding encode msg) [ bit7_hex ↦ 0 | _ ↦ alphabet_ucs2 ]

unfoldable pub pdu_dcs_alpabet2encoding : ℕ → StrEncoding
pdu_dcs_alpabet2encoding alphabet =
    if alphabet / 4 == 0
    then bit7_hex
    else (if alphabet / 4 == 1 then bit8_hex else (if alphabet / 4 == 2 then ucs2_hex else unknown))
