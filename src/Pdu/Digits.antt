-- ===== src/Pdu/Digits.antt =====
-- Phone numbers in a PDU: what is stored is parsed back.
use mathlib.Core.List.{append-nil}
use chan_svistok.CharConv.Septets.{length-hex2}
use chan_svistok.Base.{
  ℕ, suc, ◌+◌, ◌/◌, ◌%◌, ◌<◌, ◌≡◌, refl, ap, inl, inr, List, [], ◌∷◌, ◌++◌, Bool, true, false, ◌&&◌,
  ◌||◌, length, length-append, ltb, leb, le→leb, le→ltb, ◌==◌, if◌then◌else◌, Bool-cases, arith,
  pos,
}
use chan_svistok.CharConv.{hex2}
use chan_svistok.CharConv.Octets.{parse_hexdigit-hex_digit}
use chan_svistok.Pdu.{
  pdu_digit2code, pdu_code2digit, pdu_parse_byte, pdu_store_number, parse_digits, round_up2,
  number_after_toa, pdu_parse_number, toa_international,
}

-- A digit that a number may have: 0 to 9, star, hash, or a capital letter A to C.
abbrev pub is_dial : ℕ → Bool
is_dial d = leb b'0' d && leb d b'9' || (d == b'*' || (d == b'#' || leb b'A' d && leb d b'C'))

abbrev pub AllDial : List ℕ → Type 0
AllDial [] = Unit {0}
AllDial (d ∷ ds) = (is_dial d ≡ true) × AllDial ds

code2digit-digit2code : (d : ℕ) → is_dial d ≡ true → pdu_code2digit (pdu_digit2code d) ≡ pos d
unfolding pdu_code2digit pdu_digit2code
code2digit-digit2code d h = ground arith

code2digit-filler : pdu_code2digit b'F' ≡ pos 0
unfolding pdu_code2digit
code2digit-filler = refl

abbrev padding : List ℕ → List ℕ
padding ds = if length ds % 2 == 0 then [] else 0 ∷ []

parse_digits-store :
    (ds rest : List ℕ)
    → AllDial ds
    → parse_digits ((length ds + 1) / 2) (pdu_store_number ds ++ rest) ≡ (ds ++ padding ds, rest)
unfolding pdu_store_number parse_digits
parse_digits-store [] rest h = refl
parse_digits-store (a ∷ []) rest h = rw (code2digit-digit2code a h.0, code2digit-filler)
parse_digits-store (a ∷ (b ∷ r)) rest h =
    let half : (suc (suc (length r)) + 1) / 2 ≡ suc ((length r + 1) / 2) = omega arith in
    let even : suc (suc (length r)) % 2 ≡ length r % 2 = omega arith in
    rw half (
      rw
        (
          parse_digits-store r rest h.1.1,
          code2digit-digit2code a h.0,
          code2digit-digit2code b h.1.0,
          even,
        )
        refl)

pub length-store : (ds : List ℕ) → length (pdu_store_number ds) ≡ round_up2 (length ds)
unfolding pdu_store_number
length-store [] = refl
length-store (a ∷ []) = refl
length-store (a ∷ (b ∷ r)) = omega (arith, length-store r)

-- A byte that is written in two digits is parsed back.
pub pdu_parse_byte-hex2 :
    (c : ℕ) (rest : List ℕ) → c < 256 → pdu_parse_byte (hex2 c ++ rest) ≡ (pos c, rest)
unfolding pdu_parse_byte hex2
pdu_parse_byte-hex2 c rest h =
    rw
      (
        parse_hexdigit-hex_digit (c / 16) (omega arith),
        parse_hexdigit-hex_digit (c % 16) (omega arith),
      )
      (ap (λ n. (pos n, rest)) (omega arith))

-- The padding of an odd number is the NUL that an even number gets at the end.
padding-nul :
    (ds : List ℕ)
    → (ds ++ padding ds) ++ (if length ds % 2 == 0 then 0 ∷ [] else []) ≡ ds ++ (0 ∷ [])
padding-nul ds = elim (Bool-cases (length ds % 2 == 0)) [
  | inl e ↦ rw e (ap (λ l. l ++ (0 ∷ [])) (append-nil ds))
  | inr e ↦ rw e (append-nil (ds ++ (0 ∷ [])))
]

number_after_toa-store :
    (ds rest : List ℕ) (toa taken : ℕ)
    → AllDial ds
    → taken ≡ 2 + length (pdu_store_number ds ++ rest)
    → number_after_toa taken (pos toa, pdu_store_number ds ++ rest) (length ds) ≡ record {
      result = pos (2 + round_up2 (length ds));
      toa = pos toa;
      written = (if toa == toa_international then b'+' ∷ [] else []) ++ (ds ++ (0 ∷ []));
      rest = rest;
    }
unfolding number_after_toa
number_after_toa-store ds rest toa taken h e =
    rw (room, half, parse_digits-store ds rest h, padding-nul ds)
      (ap
        (λ n. record {
          result = pos n;
          toa = pos toa;
          written = (if toa == toa_international then b'+' ∷ [] else []) ++ (ds ++ (0 ∷ []));
          rest = rest;
        })
        (omega arith))
  where
    room : leb (round_up2 (length ds)) (length (pdu_store_number ds ++ rest)) ≡ true
    room = le→leb _ _ (omega (arith, length-append (pdu_store_number ds) rest, length-store ds))

    half : round_up2 (length ds) / 2 ≡ (length ds + 1) / 2
    half = omega arith

-- `pdu_parse_number` reads back, with a leading plus for an international number, the digits that
-- `pdu_store_number` writes, closed by a NUL; it takes the two digits of the type of address,
-- which is a byte, and the symbols, and leaves the rest. The digits are symbols that a number may
-- have, and the buffer has room for one more.
pub pdu_parse_number-pdu_store_number :
    (ds rest : List ℕ) (toa num_len : ℕ)
    → AllDial ds
    → toa < 256
    → length ds < num_len
    → pdu_parse_number (hex2 toa ++ (pdu_store_number ds ++ rest)) (length ds) num_len ≡ record {
      result = pos (2 + round_up2 (length ds));
      toa = pos toa;
      written = (if toa == toa_international then b'+' ∷ [] else []) ++ (ds ++ (0 ∷ []));
      rest = rest;
    }
unfolding pdu_parse_number
pdu_parse_number-pdu_store_number ds rest toa num_len h t l =
    rw (room, pdu_parse_byte-hex2 toa (pdu_store_number ds ++ rest) t)
      (number_after_toa-store ds rest toa (length (hex2 toa ++ (pdu_store_number ds ++ rest))) h
        (omega (arith, length-append (hex2 toa) (pdu_store_number ds ++ rest), length-hex2 toa)))
  where
    room : ltb num_len (length ds + 1) ≡ false
    room = le→ltb num_len (length ds + 1) (omega arith)
