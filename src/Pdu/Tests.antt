-- ===== src/Pdu/Tests.antt =====
-- A DELIVER, a SUBMIT and their fields on concrete messages.
use chan_svistok.Base.{
  ℕ, ◌+◌, ◌*◌, ◌≤◌, ◌≡◌, refl, List, [], ◌∷◌, ◌++◌, length, arith, pos, sub_size,
}
use chan_svistok.CharConv.{str_recode, get_encoding, char_to_hexstr_7bit, Iconv, text, bit7, hex2}
use chan_svistok.Pdu.{
  pdu_digit2code, check_encoding, pdu_store_number, pdu_parse_number, pdu_parse_sca,
  pdu_dcs_alpabet2encoding, round_up2, toa_international,
}
use chan_svistok.Pdu.Digits.{pdu_parse_number-pdu_store_number}
use chan_svistok.Pdu.Fields.{pdu_parse_number_overflows}
use chan_svistok.Pdu.Deliver.{ok, pdu_parse}
use chan_svistok.Pdu.Deliver.RoundTrip.{Deliver, IsDeliver, layout, pdu_parse-layout}
use chan_svistok.Pdu.Submit.{
  pdu_build, build_recode, build_sca, build_dst, build_finish, build_ud, hex02, hex_digits,
  submit_type,
}
use chan_svistok.Pdu.Submit.RoundTrip.{pdu_build-number}

-- The digits 123.
abbrev digits : List ℕ
digits = 49 ∷ 50 ∷ 51 ∷ []

-- From +123, two septets.
abbrev deliver : Deliver
deliver = record {
  sca = [];
  pdu_type = 4;
  number = digits;
  toa = 145;
  dcs = 0;
  timestamp = 48 ∷ 48 ∷ 48 ∷ 48 ∷ 48 ∷ 48 ∷ 48 ∷ 48 ∷ 48 ∷ 48 ∷ 48 ∷ 48 ∷ 48 ∷ 48 ∷ [];
  udl = 2;
  ud = 69 ∷ 56 ∷ 51 ∷ 52 ∷ [];
}

deliver-IsDeliver : IsDeliver deliver 512
deliver-IsDeliver = record {
  sca_even = refl;
  sca_short = omega arith;
  type_byte = omega arith;
  type_deliver = refl;
  no_header = refl;
  dial = (refl, (refl, (refl, tt)));
  some_number = omega arith;
  number_short = omega arith;
  number_fits = omega arith;
  toa_byte = omega arith;
  dcs_byte = omega arith;
  dcs_supported = refl;
  timestamp_length = refl;
  udl_byte = omega arith;
  ud_length = refl;
}

pdu_parse-layout_example :
    pdu_parse (layout deliver) 512
    ≡ ok (record {
      oa = 43 ∷ 49 ∷ 50 ∷ 51 ∷ 0 ∷ [];
      oa_enc = bit7;
      msg = 69 ∷ 56 ∷ 51 ∷ 52 ∷ [];
      msg_enc = pdu_dcs_alpabet2encoding 0;
    })
pdu_parse-layout_example = pdu_parse-layout deliver 512 deliver-IsDeliver

pdu_parse_number-pdu_store_number_example :
    pdu_parse_number (hex2 129 ++ (pdu_store_number digits ++ (65 ∷ []))) 3 512 ≡ record {
      result = pos (2 + round_up2 3);
      toa = pos 129;
      written = 49 ∷ 50 ∷ 51 ∷ 0 ∷ [];
      rest = 65 ∷ [];
    }
pdu_parse_number-pdu_store_number_example =
    pdu_parse_number-pdu_store_number digits (65 ∷ []) 129 512 (refl, (refl, (refl, tt)))
      (omega arith) (omega arith)

pdu_parse_number_overflows_example :
    let r = pdu_parse_number (hex2 toa_international ++ (pdu_store_number digits ++ [])) 3 4 in
    (r.result ≡ pos (2 + round_up2 3)) × (length r.written ≡ 5)
pdu_parse_number_overflows_example = pdu_parse_number_overflows digits [] (refl, (refl, (refl, tt)))

-- An iconv that writes each byte as two.
abbrev widen : List ℕ → List ℕ
widen [] = []
widen (c ∷ cs) = 0 ∷ (c ∷ widen cs)

abbrev widening : Iconv
widening = record { ucs2_to_utf8 = λ t n. text t; utf8_to_ucs2 = λ t n. text (widen t) }

abbrev sca : List ℕ
sca = 43 ∷ 55 ∷ 57 ∷ []

abbrev dst : List ℕ
dst = 43 ∷ 49 ∷ 50 ∷ 51 ∷ []

-- The text 0291973100039121F30000FF02E834.
abbrev submit : List ℕ
submit =
    48 ∷ 50 ∷ 57 ∷ 49 ∷ 57 ∷ 55 ∷ 51 ∷ 49 ∷ 48 ∷ 48 ∷ 48 ∷ 51 ∷ 57 ∷ 49 ∷ 50 ∷ 49 ∷ 70 ∷ 51 ∷ 48
    ∷ 48 ∷ 48 ∷ 48 ∷ 70 ∷ 70 ∷ 48 ∷ 50 ∷ 69 ∷ 56 ∷ 51 ∷ 52 ∷ []

submit_built : pdu_build widening 512 sca dst (104 ∷ 105 ∷ []) ≡ text submit
unfolding pdu_build build_recode str_recode check_encoding get_encoding char_to_hexstr_7bit sub_size
    pdu_digit2code build_sca hex02 hex_digits pdu_store_number build_dst build_finish build_ud
submit_built = refl

pdu_build-number_example :
    (field : List ℕ) × ((pdu_parse_sca submit).1
      ≡ hex2 submit_type ++ (hex2 0 ++ (hex2 3 ++ field)))
    × ((pdu_parse_number field 3 4).written ≡ 43 ∷ 49 ∷ 50 ∷ 51 ∷ 0 ∷ [])
    × (length (pdu_parse_sca submit).1 ≤ 178 * 2)
pdu_build-number_example =
    pdu_build-number widening 512 sca dst (104 ∷ 105 ∷ []) submit (omega arith) (omega arith)
      (refl, (refl, (refl, tt))) submit_built
