-- ===== src/Parse/Tests.antt =====
-- Responses of the forms that the comments of at_parse.c give.
use chan_svistok.Base.{ℕ, ◌≤◌, ◌≡◌, refl, [], ◌∷◌, true, false, some, arith, ascii, pos}
use chan_svistok.Pdu.Deliver.{pdu_parse}
use chan_svistok.Parse.{at, at_parse_cnum, at_parse_cops, at_parse_csca}
use chan_svistok.Parse.Marks.{lacks-Free}
use chan_svistok.Parse.Fields.{Inside, Clean, parsers-Inside}
use chan_svistok.Parse.Scan.{IsNumber, value_from}
use chan_svistok.Parse.Values.{at_parse_clcc, cpin_values, at_parse_cpin}
use chan_svistok.Parse.Values.Sim.{Answers, at_parse_cpin_lem}
use chan_svistok.Parse.Values.Entry.{AreNumbers, Stored, at_parse_clcc-fields}
use chan_svistok.Parse.Creg.{at_parse_creg, creg_state, creg_finish, creg_loop, creg_start}
use chan_svistok.Parse.Creg.Inv.{IsCreg, creg_loop-IsCreg}
use chan_svistok.Parse.Scan.{strtol, numeral, skip_space, digits, to_long}
use chan_svistok.Parse.Sms.{of_parsed, at_parse_cmgr}
use chan_svistok.Parse.Sms.Layout.{at_parse_cmgr-pdu}

digit-IsNumber : (d : ℕ) → 48 ≤ d → d ≤ 57 → IsNumber (d ∷ [])
unfolding value_from
digit-IsNumber d l h = record {
  not_empty = omega arith;
  all_digits = (l, h, tt);
  small = omega arith;
}

parsers-Inside_example :
    Inside (ascii "+CNUM: \"x\",\"") (at_parse_cnum (ascii "+CNUM: \"x\",\""))
    × Inside (ascii "+CNUM: \"x\",\"") (at_parse_cops (ascii "+CNUM: \"x\",\""))
    × Inside (ascii "+CNUM: \"x\",\"") (at_parse_csca (ascii "+CNUM: \"x\",\""))
parsers-Inside_example = parsers-Inside (ascii "+CNUM: \"x\",\"")

number-Clean : Clean (ascii "+79139131234")
number-Clean = (
  lacks-Free b',' (ascii "+79139131234") refl,
  lacks-Free b'"' (ascii "+79139131234") refl,
  lacks-Free 0 (ascii "+79139131234") refl,
)

entry-AreNumbers :
    AreNumbers true
      (ascii "+CLCC")
      (ascii "1")
      (ascii "1")
      (ascii "4")
      (ascii "0")
      (ascii "0")
      (ascii "+79139131234")
      (ascii "9")
      []
      b'\r'
entry-AreNumbers = record {
  id_is = digit-IsNumber b'1' (omega arith) (omega arith);
  dir_is = digit-IsNumber b'1' (omega arith) (omega arith);
  stat_is = digit-IsNumber b'4' (omega arith) (omega arith);
  mode_is = digit-IsNumber b'0' (omega arith) (omega arith);
  mpty_is = digit-IsNumber b'0' (omega arith) (omega arith);
  toa_is = digit-IsNumber b'9' (omega arith) (omega arith);
}

at_parse_clcc-fields_example :
    Stored true
      (ascii "+CLCC")
      (ascii "1")
      (ascii "1")
      (ascii "4")
      (ascii "0")
      (ascii "0")
      (ascii "+79139131234")
      (ascii "9")
      []
      b'\r'
      (at_parse_clcc (ascii "+CLCC:1,1,4,0,0,\"+79139131234\",9\r"))
at_parse_clcc-fields_example =
    at_parse_clcc-fields true (ascii "+CLCC") (ascii "1") (ascii "1") (ascii "4") (ascii "0")
      (ascii "0") (ascii "+79139131234") (ascii "9") [] b'\r' (lacks-Free b':' (ascii "+CLCC") refl)
      entry-AreNumbers number-Clean refl

at_parse_cpin_lem_example :
    Answers
      (at (ascii "+CPIN: SIM PIN"))
      14
      0
      cpin_values
      (at_parse_cpin (at (ascii "+CPIN: SIM PIN")) 14)
at_parse_cpin_lem_example = at_parse_cpin_lem (at (ascii "+CPIN: SIM PIN")) 14

at_parse_cmgr-pdu_example :
    at_parse_cmgr (ascii "+CMGR: 1,,31\r\n07911234567890F3") 512
    ≡ of_parsed (pdu_parse (ascii "07911234567890F3") 512)
unfolding value_from
at_parse_cmgr-pdu_example =
    at_parse_cmgr-pdu b'1' [] [] (ascii "31") (ascii "07911234567890F3")
      (lacks-Free b',' (ascii "1") refl) (lacks-Free b',' [] refl) (omega arith)
      (omega arith, omega arith, (omega arith, omega arith, tt)) (omega arith) 512 1 (omega arith)
      (omega arith)

creg_loop-IsCreg_example :
    IsCreg 17 (creg_loop 0 (ascii "+CREG: 2,1,0A,1F,") (creg_start (ascii "+CREG: 2,1,0A,1F,")))
creg_loop-IsCreg_example = creg_loop-IsCreg (ascii "+CREG: 2,1,0A,1F,")

registered_test : at_parse_creg (λ text. false) (ascii "+CREG: 2,5,0A,1F") ≡ record {
  result = pos 0;
  gsm_reg = 1;
  gsm_reg_status = pos 5;
  lac = some (ascii "0A");
  ci = some (ascii "1F");
}
unfolding at_parse_creg creg_loop creg_state creg_finish strtol numeral skip_space digits to_long
    value_from
registered_test = refl
