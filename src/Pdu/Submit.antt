-- ===== src/Pdu/Submit.antt =====
-- `pdu_build`: the text of an SMS-SUBMIT. `valid_minutes` and `srr` are parameters that the code does
-- not read: the validity period is always 0xFF and a status report is always requested.
pub mod RoundTrip
use chan_svistok.Base.{
  ℕ, zero, suc, ◌+◌, ◌-◌, ◌*◌, ◌/◌, ◌%◌, List, [], ◌∷◌, ◌++◌, Bool, true, false, ltb, leb, ◌==◌,
  if◌then◌else◌, length, sub_size, ℤ, negsuc,
}
use chan_svistok.CharConv.{
  Coded, text, error, ◌>>=◌, hex_digit, bit7_hex, ucs2_hex, encode, Iconv, str_recode, e_inval,
  e_nomem,
}
use chan_svistok.Pdu.{
  pdu_store_number, round_up2, length2octets, toa_international, check_encoding, alphabet_ucs2,
}

-- The digits of a number in base 16, at most `n` of them.
unfoldable pub hex_digits : ℕ → ℕ → List ℕ
unfolding hex_digit
hex_digits zero v = []
hex_digits (suc n) v =
    let front = hex_digits n (v / 16) in
    (if ltb v 16 then [] else front) ++ (hex_digit (v % 16) ∷ [])

-- "%02X" of an `int` that is not negative.
unfoldable pub hex02 : ℕ → List ℕ
hex02 v = if ltb v 16 then b'0' ∷ hex_digit v ∷ [] else hex_digits 8 v

abbrev pub e_2big : ℤ
e_2big = negsuc 6

-- The number without its plus.
abbrev pub strip_plus : List ℕ → List ℕ
strip_plus [] = []
strip_plus (c ∷ cs) = if c == b'+' then cs else c ∷ cs

-- The type of the destination address: international, or by its length.
abbrev pub dst_toa : List ℕ → ℕ
dst_toa [] = 0xB1
dst_toa (c ∷ cs) =
    if c == b'+' then toa_international else (if ltb (length (c ∷ cs)) 6 then 0xB1 else 0x81)

-- SUBMIT, relative validity period, and a status report.
abbrev pub submit_type : ℕ
submit_type = 0x31

unfoldable pub build_sca : List ℕ → List ℕ
build_sca [] = b'0' ∷ b'0' ∷ []
build_sca (c ∷ cs) =
    hex02 (1 + length2octets (length (c ∷ cs)))
    ++ (hex02 toa_international ++ pdu_store_number (c ∷ cs))

unfoldable pub build_dst : List ℕ → ℕ → List ℕ
build_dst dst toa =
    hex02 submit_type ++ (hex02 0 ++ (hex02 (length dst) ++ (hex02 toa ++ pdu_store_number dst)))

unfoldable pub build_ud : ℕ → ℕ → List ℕ → List ℕ
build_ud dcs udl recoded = hex02 0 ++ (hex02 dcs ++ (hex02 0xFF ++ (hex02 udl ++ recoded)))

-- The room that the code asks for.
abbrev pub build_room : List ℕ → List ℕ → List ℕ → ℕ
build_room sca dst msg =
    (if length sca == 0 then 2 else 4 + round_up2 (length sca))
    + 8
    + round_up2 (length dst)
    + 8
    + length msg * 4
    + 4

-- The end of `pdu_build`, with the message recoded.
unfoldable pub build_finish : List ℕ → List ℕ → ℕ → ℕ → List ℕ → Coded
build_finish head dst dcs msg_len recoded =
    if ltb (160 * 2) (length recoded)
    then error e_2big
    else (let udl = if dcs == alphabet_ucs2 then length recoded / 2 else msg_len in
        let tpdu = dst ++ build_ud dcs udl recoded in
        if ltb (178 * 2) (length tpdu) then error e_2big else text (head ++ tpdu))

module _ (iconv : Iconv) where
  -- What the code recodes the message to; any error becomes -EINVAL.
  unfoldable pub build_recode : ℕ → List ℕ → ℕ → Coded
  build_recode dcs msg room =
      elim (str_recode iconv encode (if dcs == alphabet_ucs2 then ucs2_hex else bit7_hex) msg
        room) [ text t ↦ text t | error e ↦ error e_inval ]

  unfoldable pub pdu_build : ℕ → List ℕ → List ℕ → List ℕ → Coded
  pdu_build size sca dst msg =
      if ltb size (build_room (strip_plus sca) (strip_plus dst) msg)
      then error e_nomem
      else (build_recode dcs msg (size - (length head + length to) - 11)
          >>= build_finish head to dcs (length msg))
    where
      dcs : ℕ
      dcs = check_encoding msg

      head : List ℕ
      head = build_sca (strip_plus sca)

      to : List ℕ
      to = build_dst (strip_plus dst) (dst_toa dst)
