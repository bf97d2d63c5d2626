-- ===== src/Pdu/Deliver/RoundTrip.antt =====
-- An SMS-DELIVER laid out field by field, as the comment at the top of pdu.c describes it, is parsed to
-- its fields.
use chan_svistok.Base.{
  ℕ, ◌+◌, ◌*◌, ◌/◌, ◌%◌, ◌<◌, ◌≡◌, refl, ap, List, [], ◌∷◌, ◌++◌, true, false, length,
  length-append, drop-append, leb, le→leb, ◌==◌, eq→==, if◌then◌else◌, arith, pos,
}
use chan_svistok.CharConv.{hex2, bit7}
use chan_svistok.Pdu.{
  pdu_store_number, round_up2, toa_international, pdu_parse_sca, sca_after_len, pdu_parse_timestamp,
  pdu_dcs_alpabet2encoding,
}
use chan_svistok.Pdu.Digits.{AllDial, pdu_parse_byte-hex2, pdu_parse_number-pdu_store_number}
use chan_svistok.Pdu.Deliver.{
  ok, pdu_parse, mti, has_udh, alphabet, supported_dcs, ud_octets, skip_udh,
}

-- The fields of a DELIVER without a user data header: the SMS centre and the time stamp as text.
pub record Deliver : Type 0 where
  pub sca : List ℕ
  pub pdu_type : ℕ
  pub number : List ℕ
  pub toa : ℕ
  pub dcs : ℕ
  pub timestamp : List ℕ
  pub udl : ℕ
  pub ud : List ℕ

abbrev pub layout : Deliver → List ℕ
layout d =
    hex2 (length d.sca / 2)
    ++ (d.sca
        ++ (hex2 d.pdu_type
            ++ (hex2 (length d.number)
                ++ (hex2 d.toa
                    ++ (pdu_store_number d.number
                        ++ (hex2 0 ++ (hex2 d.dcs ++ (d.timestamp ++ (hex2 d.udl ++ d.ud)))))))))

pub record IsDeliver (d : Deliver) (oa_len : ℕ) : Type 0 where
  pub sca_even : length d.sca % 2 ≡ 0
  pub sca_short : length d.sca < 512
  pub type_byte : d.pdu_type < 256
  pub type_deliver : mti d.pdu_type ≡ 0
  pub no_header : has_udh d.pdu_type ≡ false
  pub dial : AllDial d.number
  pub some_number : 0 < length d.number
  pub number_short : length d.number < 256
  pub number_fits : length d.number < oa_len
  pub toa_byte : d.toa < 256
  pub dcs_byte : d.dcs < 256
  pub dcs_supported : supported_dcs d.dcs ≡ true
  pub timestamp_length : length d.timestamp ≡ 14
  pub udl_byte : d.udl < 256
  pub ud_length : ud_octets d.dcs d.udl * 2 ≡ length d.ud

pub pdu_parse_sca-hex2 :
    (sca rest : List ℕ)
    → length sca % 2 ≡ 0
    → length sca < 512
    → pdu_parse_sca (hex2 (length sca / 2) ++ (sca ++ rest)) ≡ (pos (length sca / 2 * 2 + 2), rest)
unfolding pdu_parse_sca
pdu_parse_sca-hex2 sca rest e s =
    rw (pdu_parse_byte-hex2 (length sca / 2) (sca ++ rest) (omega arith), sca_after_len, enough)
      (ap (λ r. (pos (length sca / 2 * 2 + 2), r))
        (drop-append (length sca / 2 * 2) sca rest (omega arith)))
  where
    enough : leb (length sca / 2 * 2) (length (sca ++ rest)) ≡ true
    enough = le→leb _ _ (omega (arith, length-append sca rest))

pdu_parse_timestamp-append :
    (ts rest : List ℕ) → length ts ≡ 14 → pdu_parse_timestamp (ts ++ rest) ≡ (pos 14, rest)
unfolding pdu_parse_timestamp
pdu_parse_timestamp-append ts rest e =
    rw (le→leb 14 (length (ts ++ rest)) (omega (arith, length-append ts rest)))
      (ap (λ r. (pos 14, r)) (drop-append 14 ts rest e))

no_skip : (pdu_type : ℕ) (ud : List ℕ) → has_udh pdu_type ≡ false → skip_udh pdu_type ud ≡ ok ud
unfolding skip_udh
no_skip pdu_type ud h = rw h

-- `pdu_parse` reads the fields of a DELIVER back, whose fields fit their places and which has no
-- user data header: the number with a plus if it is international and closed by a NUL, the user
-- data, and the encoding that the data coding scheme names.
pub pdu_parse-layout :
    (d : Deliver) (oa_len : ℕ)
    → IsDeliver d oa_len
    → pdu_parse (layout d) oa_len
      ≡ ok (record {
        oa = (if d.toa == toa_international then b'+' ∷ [] else []) ++ (d.number ++ (0 ∷ []));
        oa_enc = bit7;
        msg = d.ud;
        msg_enc = pdu_dcs_alpabet2encoding (alphabet d.dcs);
      })
unfolding pdu_parse
pdu_parse-layout d oa_len v =
    rw
      (
        pdu_parse_sca-hex2 d.sca _ v.sca_even v.sca_short,
        le→leb 1 (length d.sca / 2 * 2 + 2) (omega arith),
      )
      (rw (pdu_parse_byte-hex2 d.pdu_type _ v.type_byte, eq→== (mti d.pdu_type) 0 v.type_deliver)
        (rw
          (
            pdu_parse_byte-hex2 (length d.number) _ v.number_short,
            le→leb 1 (length d.number) v.some_number,
          )
          (rw
            (
              pdu_parse_number-pdu_store_number d.number _ d.toa oa_len v.dial v.toa_byte
                  v.number_fits,
              le→leb 1 (2 + round_up2 (length d.number)) (omega arith),
            )
            (rw
              (
                pdu_parse_byte-hex2 0 _ (omega arith),
                pdu_parse_byte-hex2 d.dcs _ v.dcs_byte,
                v.dcs_supported,
              )
              (rw
                (
                  pdu_parse_timestamp-append d.timestamp _ v.timestamp_length,
                  pdu_parse_byte-hex2 d.udl _ v.udl_byte,
                )
                (rw
                  (
                    eq→== (ud_octets d.dcs d.udl * 2) (length d.ud) v.ud_length,
                    no_skip d.pdu_type d.ud v.no_header,
                  )
                  refl))))))
